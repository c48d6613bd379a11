-- ===== src/Queue/Effects/Workers.antt =====
-- The effects of `claim_next`, `heartbeat` and `complete`.
use autonomous_qwen_react.Prelude.{
  String, true, ◌+◌, ◌≡◌, ◌⊎◌, refl, ap, List, [], ◌∷◌, Option, some, Result, ok, raise_if,
  Option-cases, get, values, filter, Distinct, All, All-of_get, All-values, ℤ, arith, inl, inr,
  Bool-cases, at_most_zero, >>=-eq-ok, ok-injective,
}
use autonomous_qwen_react.Prelude.Sorting.{sorted-All}
use mathlib.Core.Path.{subst}
use autonomous_qwen_react.Json.{Json}
use autonomous_qwen_react.Queue.Status.{
  TaskStatus, Error, value_error, running, completed, cancelled, cancel_requested,
}
use autonomous_qwen_react.Queue.Records.{
  Time, RcaState, QueueRecord, AttemptRecord, with_status, status_of, post_init, checked-bind,
}
use autonomous_qwen_react.Queue.Store.{
  Store, append_event, append_attempt, put_record, replace_attempt, owns_active_lease,
}
use autonomous_qwen_react.Queue.Workers.{
  is_candidate, claimed_before, claimed, start, claim_first, claim_next, may_beat, beaten,
  heartbeat_found, heartbeat, leased, completion, complete, committed, settle, new_attempt,
}
use autonomous_qwen_react.Queue.Moves.{Move, claim, beat, finish, discard, SameJob}
use autonomous_qwen_react.Queue.Effects.Defs.{
  Effect, idle, moved, quiet, logged, kept, begun, numbers-append_attempt, numbers-replace_attempt,
}

-- A stored record under its own identifier, at the head of the queue.
abbrev pub Claimable : Store → Time → QueueRecord → Type 0
Claimable s t r = (get r.state.job.job_id s.records ≡ some r) × (is_candidate t r ≡ true)

start-Effect :
    (s : Store) (w : String) (l : ℤ) (t : Time) (r : QueueRecord)
    → Claimable s t r
    → post_init (claimed r w l t) ≡ ok tt
    → Effect s (start w t (claimed r w l t) s)
unfolding start put_record append_event append_attempt
start-Effect s w l t r h p =
    moved r.state.job.job_id r (claimed r w l t) h.0 (claim w l t h.1 refl) p refl
      (begun
        (numbers-append_attempt r.state.job.job_id
          (new_attempt r.state.job.job_id (r.attempt_count + 1) w t) s)
        refl)
      refl (logged _ _ _ _ refl)

claim_first-Effect :
    (s : Store) (w : String) (l : ℤ) (t : Time) (rs : List QueueRecord) {s' : Store}
    {x : Option QueueRecord}
    → All (Claimable s t) rs
    → claim_first s w l t rs ≡ ok (s', x)
    → Effect s s'
unfolding claim_first
claim_first-Effect s w l t [] h e =
    idle (ground arith) (ground arith) (ground arith) (quiet (ground arith))
claim_first-Effect s w l t (r ∷ rs) {s'} h e =
    let (p, q) = checked-bind (claimed r w l t) _ e in
    subst (Effect s) (ap (λ (y : Store × Option QueueRecord). y.0) (ok-injective q))
      (start-Effect s w l t r h.0 p)

candidates-Claimable :
    (s : Store) (t : Time) (rs : List QueueRecord)
    → All (λ r. get r.state.job.job_id s.records ≡ some r) rs
    → All (Claimable s t) (filter (is_candidate t) rs)
candidates-Claimable s t [] h = tt
candidates-Claimable s t (r ∷ rs) h = elim (Bool-cases (is_candidate t r)) [
  | inl e ↦ rw e ((h.0, e), candidates-Claimable s t rs h.1)
  | inr e ↦ rw e (candidates-Claimable s t rs h.1)
]

-- Every record stands under the identifier of its job.
abbrev pub Keyed : Store → Type 0
Keyed s = (j : String) (r : QueueRecord) → get j s.records ≡ some r → r.state.job.job_id ≡ j

pub values-get :
    (s : Store)
    → Distinct s.records
    → Keyed s
    → All (λ r. get r.state.job.job_id s.records ≡ some r) (values s.records)
values-get s d k =
    All-values (λ r. get r.state.job.job_id s.records ≡ some r) s.records
      (All-of_get (λ j r. get r.state.job.job_id s.records ≡ some r) s.records d
        (λ j r e. simp (k j r e) e))

pub claim_next-Effect :
    (s : Store) (w : String) (l : ℤ) (t : Time) {s' : Store} {x : Option QueueRecord}
    → Distinct s.records
    → Keyed s
    → claim_next s w l t ≡ ok (s', x)
    → Effect s s'
unfolding claim_next
claim_next-Effect s w l t d k e =
    let (u, p, q) = >>=-eq-ok (raise_if (at_most_zero l) value_error) _ e in
    claim_first-Effect s w l t _
      (sorted-All claimed_before (Claimable s t) _
        (candidates-Claimable s t (values s.records) (values-get s d k)))
      q

-- A call that changes nothing.
pub unchanged-Effect {ℓ} :
    {A : Type ℓ} (s : Store) {s' : Store} {a b : A}
    → ◌≡◌ {A = Result Error (Store × A)} (ok (s, a)) (ok (s', b))
    → Effect s s'
unchanged-Effect {A = A} s e =
    subst (Effect s) (ap (λ (y : Store × A). y.0) (ok-injective e))
      (idle refl refl refl (quiet refl))

heartbeat_found-Effect :
    (s : Store) (w j : String) (l : ℤ) (t : Time) (r : QueueRecord) {s' : Store} {x : Option Time}
    → get j s.records ≡ some r
    → heartbeat_found s w j l t r ≡ ok (s', x)
    → Effect s s'
unfolding heartbeat_found
heartbeat_found-Effect s w j l t r f e = elim (Bool-cases (may_beat r w t)) [
  | inl m ↦
      let (p, q) = checked-bind (beaten r l t) _ (rw m at e) in
      subst (Effect s) (ap (λ (y : Store × Option Time). y.0) (ok-injective q)) (
        unfold put_record in
        moved j r (beaten r l t) f (beat w l t m refl) p refl (kept (λ _. refl) refl) refl
          (quiet refl))
  | inr m ↦ unchanged-Effect s (rw m at e)
]

pub heartbeat-Effect :
    (s : Store) (w j : String) (l : ℤ) (t : Time) {s' : Store} {x : Option Time}
    → heartbeat s w j l t ≡ ok (s', x)
    → Effect s s'
unfolding heartbeat
heartbeat-Effect s w j l t e =
    let (u, p, q) = >>=-eq-ok (raise_if (at_most_zero l) value_error) _ e in
    elim (Option-cases (get j s.records)) [
      | inl n ↦ unchanged-Effect s (rw n at q)
      | inr (r, f) ↦ heartbeat_found-Effect s w j l t r f (rw f at q)
    ]

-- A worker that is served owns an active lease on a stored record.
pub leased-eq-ok :
    (s : Store) (w j : String) (t : Time) {r : QueueRecord}
    → leased s w j t ≡ ok r
    → (get j s.records ≡ some r) × (owns_active_lease r w t ≡ true)
unfolding leased
leased-eq-ok s w j t e = ground arith

-- The end of an attempt moves one record and keeps the numbers of the attempts.
pub settle-Effect :
    (s : Store) (j : String) (r r' : QueueRecord) (f : AttemptRecord → AttemptRecord)
    (event_type : String) (p : Json) (t : Time)
    → ((a : AttemptRecord) → (f a).attempt_number ≡ a.attempt_number)
    → get j s.records ≡ some r
    → Move r r'
    → post_init r' ≡ ok tt
    → r'.attempt_count ≡ r.attempt_count
    → Effect s (settle j r' f event_type p t s)
unfolding settle append_event replace_attempt put_record
settle-Effect s j r r' f event_type p t keep found m i n =
    moved j r r' found m i refl
      (kept (numbers-replace_attempt j r'.attempt_count f (put_record j r' s) keep) n) refl
      (logged _ _ _ _ refl)

completion-eq-ok :
    (c : TaskStatus) (old new : RcaState) {final : TaskStatus} {st : RcaState} {event_type : String}
    → completion c old new ≡ ok (final, st, event_type)
    → ((c ≡ running) × (st ≡ with_status completed new))
      ⊎ ((c ≡ cancel_requested) × (st ≡ with_status cancelled old))
unfolding completion
completion-eq-ok c old new e = ground arith

completion-Move :
    (w : String) (st : RcaState) (c : Option Json) (t : Time) (r : QueueRecord) {final : TaskStatus}
    {final_state : RcaState} {event_type : String}
    → owns_active_lease r w t ≡ true
    → SameJob (some st) r
    → completion (status_of r) r.state st ≡ ok (final, final_state, event_type)
    → Move r (committed r final_state c t)
completion-Move w st c t r o k e = elim (completion-eq-ok (status_of r) r.state st e) [
  | inl (u, v) ↦ finish w st c t o u k (ap (λ y. committed r y c t) v)
  | inr (u, v) ↦ discard w c t o u (ap (λ y. committed r y c t) v)
]

pub complete-Effect :
    (s : Store) (w j : String) (st : RcaState) (c : Option Json) (t : Time) {s' : Store}
    {x : QueueRecord}
    → ((r : QueueRecord) → get j s.records ≡ some r → SameJob (some st) r)
    → complete s w j st c t ≡ ok (s', x)
    → Effect s s'
unfolding complete
complete-Effect s w j st c t same e =
    let (r, p, q) = >>=-eq-ok (leased s w j t) _ e in
    let (found, owned) = leased-eq-ok s w j t p in
    let ((final, final_state, event_type), p', q') =
      >>=-eq-ok (completion (status_of r) r.state st) _ q in
    let (i, q'') = checked-bind (committed r final_state c t) _ q' in
    subst (Effect s) (ap (λ (y : Store × QueueRecord). y.0) (ok-injective q'')) (
      settle-Effect s j r _ _ _ _ t (λ _. refl) found
        (completion-Move w st c t r owned (same r found) p') i refl)
