-- ===== src/Queue/Leases.antt =====
-- Leases (backend/yield_rca_api/store.py): what a worker may write to a record, with and without
-- one.
use mathlib.Core.Path.{subst}
use autonomous_qwen_react.Prelude.{
  ◌<◌, ◌&&◌, ltb, String, Bool, true, false, ◌≡◌, sym, ap, ◌∙◌, Option, none, some, ok, raise, get,
  put, str_eq, eq_iff, eq_refl, get-put, some_inj, ℤ, at_most_zero, arith, Bool-cases, inl, inr,
  Option-cases, >>=-eq-ok, ok-injective, raise_if,
}
use autonomous_qwen_react.Json.{Json}
use autonomous_qwen_react.Queue.Status.{lease_lost, value_error}
use autonomous_qwen_react.Queue.Records.{Time, RcaState, QueueRecord, status_of, checked-bind}
use autonomous_qwen_react.Queue.Store.{
  Store, owns_active_lease, append_event, put_record, replace_attempt,
}
use autonomous_qwen_react.Queue.Workers.{
  heartbeat, heartbeat_found, may_beat, beaten, leased, completion, complete, committed, settle,
}
use autonomous_qwen_react.Queue.Failures.{fail_attempt, failed_record, next_status}
use autonomous_qwen_react.Queue.Clients.{get_record}
use autonomous_qwen_react.Queue.Effects.{leased-eq-ok}

-- A worker holds an active lease: the record names it as the owner, and its lease ends after this instant.
abbrev pub HoldsLease : QueueRecord → String → Time → Type 0
HoldsLease r w t = (r.lease_owner ≡ some w) × (e : Time) × (r.lease_expires_at ≡ some e) × (t < e)

pub owns-HoldsLease :
    (r : QueueRecord) (w : String) (t : Time) → owns_active_lease r w t ≡ true → HoldsLease r w t
unfolding owns_active_lease
owns-HoldsLease r w t h = elim (Option-cases r.lease_owner) [
  | inl o ↦ absurd (ground (arith, o, h))
  | inr (v, o) ↦ elim (Option-cases r.lease_expires_at) [
    | inl x ↦ absurd (ground (arith, x, h))
    | inr (e, x) ↦
        let both : (str_eq v w && ltb t e) ≡ true = rw (o, x) at h in
        (o ∙ ap some ((eq_iff v w).0 (ground (arith, both))), e, x, ground (arith, both))
  ]
]

pub HoldsLease-owns :
    (r : QueueRecord) (w : String) (t : Time) → HoldsLease r w t → owns_active_lease r w t ≡ true
unfolding owns_active_lease
HoldsLease-owns r w t (o, e, x, b) = rw (o, x) (ground (arith, eq_refl w, b))

-- The three calls, by the test that they make.
pub refused_without_lease :
    (s : Store) (w j : String) (t : Time) (r : QueueRecord) (st : RcaState) (st' : Option RcaState)
    (x : Json) (c : Option Json) (b : Bool) (d l : ℤ)
    → get_record s j ≡ some r
    → owns_active_lease r w t ≡ false
    → at_most_zero l ≡ false
    → (complete s w j st c t ≡ raise lease_lost)
      × (fail_attempt s w j x b d st' c t ≡ raise lease_lost)
      × (heartbeat s w j l t ≡ ok (s, none))
unfolding get_record complete fail_attempt heartbeat heartbeat_found may_beat leased
refused_without_lease s w j t r st st' x c b d l f o p = ground arith

-- A worker that is not named as the owner of a stored job, or whose lease on it has ended, commits nothing and
-- extends nothing: `complete` and `fail_attempt` raise `JobLeaseLostError`, and `heartbeat` with a positive lease
-- duration returns `None` with the store unchanged.
pub no_commit_without_lease :
    (s : Store) (w j : String) (t : Time) (r : QueueRecord) (st : RcaState) (st' : Option RcaState)
    (x : Json) (c : Option Json) (b : Bool) (d l : ℤ)
    → get_record s j ≡ some r
    → ¬ HoldsLease r w t
    → at_most_zero l ≡ false
    → (complete s w j st c t ≡ raise lease_lost)
      × (fail_attempt s w j x b d st' c t ≡ raise lease_lost)
      × (heartbeat s w j l t ≡ ok (s, none))
no_commit_without_lease s w j t r st st' x c b d l f n p =
    elim (Bool-cases (owns_active_lease r w t)) [
      | inl o ↦ absurd (n (owns-HoldsLease r w t o))
      | inr o ↦ refused_without_lease s w j t r st st' x c b d l f o p
    ]

-- Two workers never own one record at once.
owner_unique :
    (r : QueueRecord) (w w' : String) (t : Time)
    → r.lease_owner ≡ some w
    → owns_active_lease r w' t ≡ true
    → w ≡ w'
unfolding owns_active_lease
owner_unique r w w' t e o = ground (arith, eq_iff w w')

-- A write to the record `k` that a worker owns is no write to `j`, which another worker holds.
put_elsewhere :
    (s : Store) (j k w w' : String) (t : Time) (r v v' : QueueRecord)
    → get j s.records ≡ some r
    → r.lease_owner ≡ some w
    → get k s.records ≡ some v
    → owns_active_lease v w' t ≡ true
    → ¬ (w ≡ w')
    → get j (put k v' s.records) ≡ some r
put_elsewhere s j k w w' t r v v' f e g o n = elim (Bool-cases (str_eq k j)) [
  | inl b ↦
      let v≡r : v ≡ r = some_inj (sym g ∙ ap (λ i. get i s.records) ((eq_iff k j).0 b) ∙ f) in
      absurd (n (owner_unique v w w' t (ap (λ (y : QueueRecord). y.lease_owner) v≡r ∙ e) o))
  | inr b ↦ get-put k j v' s.records ∙ rw b f
]

pub complete-keeps :
    (s : Store) (j k w w' : String) (t : Time) (r : QueueRecord) (st : RcaState) (c : Option Json)
    {s' : Store} {x : QueueRecord}
    → get j s.records ≡ some r
    → r.lease_owner ≡ some w
    → ¬ (w ≡ w')
    → complete s w' k st c t ≡ ok (s', x)
    → get j s'.records ≡ some r
unfolding complete settle append_event put_record replace_attempt
complete-keeps s j k w w' t r st c f e n h =
    let (v, p, q) = >>=-eq-ok (leased s w' k t) _ h in
    let (g, o) = leased-eq-ok s w' k t p in
    let ((final, final_state, event_type), p', q') =
      >>=-eq-ok (completion (status_of v) v.state st) _ q in
    let (i, q'') = checked-bind (committed v final_state c t) _ q' in
    subst (λ (y : Store × QueueRecord). get j y.0.records ≡ some r) (ok-injective q'')
      (put_elsewhere s j k w w' t r v _ f e g o n)

pub fail_attempt-keeps :
    (s : Store) (j k w w' : String) (t : Time) (r : QueueRecord) (z : Json) (b : Bool) (d : ℤ)
    (st : Option RcaState) (c : Option Json) {s' : Store} {x : QueueRecord}
    → get j s.records ≡ some r
    → r.lease_owner ≡ some w
    → ¬ (w ≡ w')
    → fail_attempt s w' k z b d st c t ≡ ok (s', x)
    → get j s'.records ≡ some r
unfolding fail_attempt settle append_event put_record replace_attempt
fail_attempt-keeps s j k w w' t r z b d st c f e n h =
    let (v, p, q) = >>=-eq-ok (leased s w' k t) _ h in
    let (g, o) = leased-eq-ok s w' k t p in
    let (i, q') = checked-bind (failed_record v (next_status (status_of v) b v) st z c d t) _ q in
    subst (λ (y : Store × QueueRecord). get j y.0.records ≡ some r) (ok-injective q')
      (put_elsewhere s j k w w' t r v _ f e g o n)

may_beat-owns :
    (r : QueueRecord) (w : String) (t : Time)
    → may_beat r w t ≡ true
    → owns_active_lease r w t ≡ true
unfolding may_beat
may_beat-owns r w t h = ground arith

heartbeat_found-keeps :
    (s : Store) (j k w w' : String) (l : ℤ) (t : Time) (r v : QueueRecord) {s' : Store}
    {x : Option Time}
    → get j s.records ≡ some r
    → r.lease_owner ≡ some w
    → ¬ (w ≡ w')
    → get k s.records ≡ some v
    → heartbeat_found s w' k l t v ≡ ok (s', x)
    → get j s'.records ≡ some r
unfolding heartbeat_found put_record
heartbeat_found-keeps s j k w w' l t r v f e n g h = elim (Bool-cases (may_beat v w' t)) [
  | inl m ↦
      let (i, q) = checked-bind (beaten v l t) _ (rw (m, heartbeat_found) at h) in
      subst (λ (y : Store × Option Time). get j y.0.records ≡ some r) (ok-injective q)
        (put_elsewhere s j k w w' t r v _ f e g (may_beat-owns v w' t m) n)
  | inr m ↦
      subst (λ (y : Store × Option Time). get j y.0.records ≡ some r)
        (ok-injective (rw (m, heartbeat_found) at h)) f
]

pub heartbeat-keeps :
    (s : Store) (j k w w' : String) (l : ℤ) (t : Time) (r : QueueRecord) {s' : Store}
    {x : Option Time}
    → get j s.records ≡ some r
    → r.lease_owner ≡ some w
    → ¬ (w ≡ w')
    → heartbeat s w' k l t ≡ ok (s', x)
    → get j s'.records ≡ some r
unfolding heartbeat
heartbeat-keeps s j k w w' l t r f e n h =
    let (u, p, q) = >>=-eq-ok (raise_if (at_most_zero l) value_error) _ h in
    elim (Option-cases (get k s.records)) [
      | inl m ↦
          subst (λ (y : Store × Option Time). get j y.0.records ≡ some r) (ok-injective (rw m at q))
            f
      | inr (v, m) ↦ heartbeat_found-keeps s j k w w' l t r v f e n m (rw m at q)
    ]
