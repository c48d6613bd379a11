-- ===== src/Queue/Exclusion.antt =====
-- What the calls of other callers do to a record that a worker holds
-- (backend/yield_rca_api/store.py).
use mathlib.Core.Path.{subst}
use autonomous_qwen_react.Prelude.{
  ℕ, ◌<◌, refl, String, true, false, not, ◌≡◌, sym, ap, ◌∙◌, Option, some, ok, get, str_eq, eq_iff,
  get-put, some_inj, ℤ, at_most_zero, arith, Bool-cases, inl, inr, Option-cases, if◌then◌else◌,
  >>=-eq-ok, ok-injective, raise_if,
}
use autonomous_qwen_react.Json.{Json}
use autonomous_qwen_react.Queue.Status.{
  value_error, lease_lost, cancel_requested, cancelled, validate_job_transition,
}
use autonomous_qwen_react.Queue.Records.{
  Time, QueueRecord, EventRecord, status_of, no_sensitive_fields,
}
use autonomous_qwen_react.Queue.Store.{Store, append_event, put_record}
use autonomous_qwen_react.Queue.Workers.{is_candidate, claim_next, heartbeat, complete, leased}
use autonomous_qwen_react.Queue.Failures.{fail_attempt, is_stale, recover_stale_leases}
use autonomous_qwen_react.Queue.Recovery.{recover_stale_leases-ok}
use autonomous_qwen_react.Queue.Clients.{
  enqueue, request_cancel, record_progress_event, record_worker_heartbeat, get_record,
  is_progress_type, enqueue_new, enqueue_again, cancel_found, cancel_active, cancel_record,
  is_immediate,
}
use autonomous_qwen_react.Queue.Moves.{is_in_flight}
use autonomous_qwen_react.Queue.Invariant.{Inv}
use autonomous_qwen_react.Queue.Leases.{complete-keeps, fail_attempt-keeps, heartbeat-keeps}
use autonomous_qwen_react.Queue.Claims.{claim_next-IsFirst}
use autonomous_qwen_react.Queue.Runs.{
  Call, enqueue_call, claim_call, heartbeat_call, complete_call, fail_call, cancel_call,
  progress_call, worker_call, call, store_of-eq-ok,
}

-- The caller is not the worker `w`, and does not cancel the job `j`.
abbrev pub IsOther : String → String → Call → Type 0
IsOther w j (claim_call w' l t) = ¬ (w ≡ w')
IsOther w j (heartbeat_call w' k l t) = ¬ (w ≡ w')
IsOther w j (complete_call w' k st c t) = ¬ (w ≡ w')
IsOther w j (fail_call w' k x b d st c t) = ¬ (w ≡ w')
IsOther w j (cancel_call k t) = ¬ (k ≡ j)
IsOther w j _ = Unit

lease_positive :
    (s : Store) (w : String) (l : ℤ) (t : Time) {y : Store × Option QueueRecord}
    → claim_next s w l t ≡ ok y
    → at_most_zero l ≡ false
unfolding claim_next
lease_positive s w l t e = elim (Bool-cases (at_most_zero l)) [
  | inl b ↦ absurd (cc (rw (b, claim_next) at e))
  | inr b ↦ b
]

-- What is in flight is no candidate.
not_due :
    (t : Time) (r : QueueRecord) → is_in_flight (status_of r) ≡ true → is_candidate t r ≡ true → ⊥
unfolding is_candidate
not_due t r a c = ground arith

claim_next-keeps :
    (s : Store) (w : String) (l : ℤ) (t : Time) (j : String) (r : QueueRecord) {s' : Store}
    {x : Option QueueRecord}
    → Inv s
    → get j s.records ≡ some r
    → is_in_flight (status_of r) ≡ true
    → claim_next s w l t ≡ ok (s', x)
    → get j s'.records ≡ some r
unfolding get_record
claim_next-keeps s w l t j r {s'} h f a e =
    elim (claim_next-IsFirst s w l t h (lease_positive s w l t e)) [
      | inl (n, _) ↦
          subst (λ (y : Store × Option QueueRecord). get j y.0.records ≡ some r)
            (ok-injective (sym n ∙ e)) f
      | inr (v, (first, (u, n, _, other))) ↦ elim (Bool-cases (str_eq v.state.job.job_id j)) [
        | inl b ↦
            let v≡r : v ≡ r =
              some_inj
                (sym first.0 ∙ ap (λ i. get i s.records) ((eq_iff v.state.job.job_id j).0 b) ∙ f) in
            absurd
              (not_due t v (ap (λ (y : QueueRecord). is_in_flight (status_of y)) v≡r ∙ a) first.1)
        | inr b ↦
            subst (λ (y : Store × Option QueueRecord). get j y.0.records ≡ some r)
              (ok-injective (sym n ∙ e)) (other j b ∙ f)
      ]
    ]

-- `enqueue`, a progress event and a cancellation of another job.
enqueue-keeps :
    (s : Store) (r : QueueRecord) (j : String) (v : QueueRecord) (t : Time) {s' : Store}
    {x : QueueRecord}
    → get j s.records ≡ some v
    → enqueue s r t ≡ ok (s', x)
    → get j s'.records ≡ some v
unfolding enqueue enqueue_new enqueue_again append_event put_record
enqueue-keeps s r j v t f e =
    ground (arith, get-put r.state.job.job_id j r s.records, eq_iff r.state.job.job_id j)

progress-keeps :
    (s : Store) (w k ty j : String) (p : Json) (t : Time) (v : QueueRecord) {s' : Store}
    {x : EventRecord}
    → get j s.records ≡ some v
    → record_progress_event s w k ty p t ≡ ok (s', x)
    → get j s'.records ≡ some v
unfolding record_progress_event append_event
progress-keeps s w k ty j p t v f e =
    let (u1, p1, q1) = >>=-eq-ok (raise_if (not (is_progress_type ty)) value_error) _ e in
    let (u2, p2, q2) = >>=-eq-ok (no_sensitive_fields p) _ q1 in
    let (r, p3, q3) = >>=-eq-ok (leased s w k t) _ q2 in
    let (u3, p4, q4) = >>=-eq-ok (raise_if (not (is_in_flight (status_of r))) lease_lost) _ q3 in
    subst (λ (y : Store × EventRecord). get j y.0.records ≡ some v) (ok-injective q4) f

cancel-keeps :
    (s : Store) (k j : String) (t : Time) (v : QueueRecord) {s' : Store} {x : Option QueueRecord}
    → ¬ (k ≡ j)
    → get j s.records ≡ some v
    → request_cancel s k t ≡ ok (s', x)
    → get j s'.records ≡ some v
unfolding request_cancel cancel_found cancel_active append_event put_record validate_job_transition
cancel-keeps s k j t v n f e =
    let next : QueueRecord → QueueRecord = λ r.
      cancel_record r (if is_immediate (status_of r) then cancelled else cancel_requested)
        (is_immediate (status_of r)) t in
    elim (Option-cases (get k s.records)) [
      | inl m ↦ ground (arith, m)
      | inr (r, m) ↦ ground (arith, m, get-put k j (next r) s.records, eq_iff k j)
    ]

call-keeps :
    (s : Store) (c : Call) {s' : Store} (j w : String) (r : QueueRecord)
    → Inv s
    → get j s.records ≡ some r
    → r.lease_owner ≡ some w
    → is_in_flight (status_of r) ≡ true
    → IsOther w j c
    → call s c ≡ ok s'
    → get j s'.records ≡ some r
unfolding call
call-keeps s (enqueue_call v t) j w r h f o a n e =
    enqueue-keeps s v j r t f (store_of-eq-ok (enqueue s v t) e).1
call-keeps s (claim_call w' l t) j w r h f o a n e =
    claim_next-keeps s w' l t j r h f a (store_of-eq-ok (claim_next s w' l t) e).1
call-keeps s (heartbeat_call w' k l t) j w r h f o a n e =
    heartbeat-keeps s j k w w' l t r f o n (store_of-eq-ok (heartbeat s w' k l t) e).1
call-keeps s (complete_call w' k st c t) j w r h f o a n e =
    complete-keeps s j k w w' t r st c f o n (store_of-eq-ok (complete s w' k st c t) e).1
call-keeps s (fail_call w' k x b d st c t) j w r h f o a n e =
    fail_attempt-keeps s j k w w' t r x b d st c f o n
      (store_of-eq-ok (fail_attempt s w' k x b d st c t) e).1
call-keeps s (cancel_call k t) j w r h f o a n e =
    cancel-keeps s k j t r n f (store_of-eq-ok (request_cancel s k t) e).1
call-keeps s (progress_call w' k ty p t) j w r h f o a n e =
    progress-keeps s w' k ty j p t r f (store_of-eq-ok (record_progress_event s w' k ty p t) e).1
call-keeps s (worker_call w' n' m t) j w r h f o a n e =
    subst (λ y. get j y.records ≡ some r) (ok-injective e) (unfold record_worker_heartbeat in f)

not_stale :
    (now : Time) (r : QueueRecord) {e : Time}
    → r.lease_expires_at ≡ some e
    → now < e
    → is_stale now r ≡ false
unfolding is_stale
not_stale now r x h = rw x (ground (arith, h))

recovery-keeps :
    (s : Store) (now : Time) (d : ℤ) (j : String) (r : QueueRecord) {s' : Store} {n : ℕ}
    → Inv s
    → get j s.records ≡ some r
    → is_stale now r ≡ false
    → recover_stale_leases s now d ≡ ok (s', n)
    → get j s'.records ≡ some r
recovery-keeps s now d j r h f fresh e =
    let (u, written, _, others, _) = recover_stale_leases-ok s now d h in
    subst (λ (y : Store × ℕ). get j y.0.records ≡ some r) (ok-injective (sym written ∙ e))
      (others j r f ∙ rw fresh refl)

-- What others do to a store while `w` holds the job `j` under a lease that ends at `expires`: a call of another
-- worker or of a client, but no cancellation of `j`; or a recovery of stale leases before that instant.
pub data OtherStep (w j : String) (expires : Time) (s s' : Store) : Type 0 where
  by_call : (c : Call) → IsOther w j c → call s c ≡ ok s' → OtherStep w j expires s s'
  by_recovery :
      (now : Time) (d : ℤ) {n : ℕ}
      → now < expires
      → recover_stale_leases s now d ≡ ok (s', n)
      → OtherStep w j expires s s'

-- In a store of the invariant a worker `w` is the lease owner of the job `j`, which is in flight. Any call by another
-- caller, but a cancellation of `j`, that returns leaves the record of `j` as it is: its lease, its status
-- and its attempt; and so does a recovery of stale leases that runs before this lease ends.
pub held_job_untouched :
    (s : Store) {s' : Store} (j w : String) (r : QueueRecord) (expires : Time)
    → Inv s
    → get_record s j ≡ some r
    → r.lease_owner ≡ some w
    → r.lease_expires_at ≡ some expires
    → is_in_flight (status_of r) ≡ true
    → OtherStep w j expires s s'
    → get_record s' j ≡ some r
unfolding get_record
held_job_untouched s j w r expires h f o x a (by_call c n e) = call-keeps s c j w r h f o a n e
held_job_untouched s j w r expires h f o x a (by_recovery now d b e) =
    recovery-keeps s now d j r h f (not_stale now r x b) e
