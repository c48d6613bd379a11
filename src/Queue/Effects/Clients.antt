-- ===== src/Queue/Effects/Clients.antt =====
-- The effects of `enqueue`, `request_cancel` and `record_progress_event`.
use mathlib.Core.Path.{subst}
use autonomous_qwen_react.Prelude.{
  String, Bool, true, false, ◌≡◌, refl, ap, [], ◌∷◌, ◌++◌, ◌+◌, length, put, str_eq, not, Option,
  none, some, ok, get, arith, >>=-eq-ok, ok-injective, Option-cases, Bool-cases, inl, inr,
  if◌then◌else◌, raise_if,
}
use autonomous_qwen_react.Json.{Json, object, field, text, nil}
use autonomous_qwen_react.Queue.Status.{
  TaskStatus, completed, failed, cancelled, cancel_requested, is_one_of, value_error, lease_lost,
  queued, value, validate_job_transition,
}
use autonomous_qwen_react.Queue.Records.{
  Time, QueueRecord, EventRecord, checked-bind, status_of, no_sensitive_fields,
}
use autonomous_qwen_react.Queue.Store.{Store, put_record, append_event, rows}
use autonomous_qwen_react.Queue.Workers.{leased}
use autonomous_qwen_react.Queue.Clients.{
  enqueue, enqueue_new, enqueue_again, bound_job, request_cancel, cancel_found, cancel_active,
  cancel_record, is_immediate, record_progress_event, is_progress_type, index_key,
}
use autonomous_qwen_react.Queue.Moves.{Move, cancel, ask_cancel, is_in_flight, IsNew}
use autonomous_qwen_react.Queue.Effects.Defs.{Effect, idle, added, moved, logged, kept}
use autonomous_qwen_react.Queue.Effects.Workers.{unchanged-Effect}

index_key-frame :
    (k : Option String) (j : String) (r : QueueRecord) (s : Store)
    → ((index_key k j (put_record j r s)).records ≡ (put_record j r s).records)
      × ((index_key k j (put_record j r s)).attempts ≡ s.attempts)
      × ((index_key k j (put_record j r s)).events ≡ s.events)
      × ((index_key k j (put_record j r s)).idempotency_index ≡ (index_key k j s).idempotency_index)
unfolding put_record
index_key-frame none j r s = (refl, refl, refl, refl)
index_key-frame (some k) j r s = (refl, refl, refl, refl)

enqueued-Effect :
    (s : Store) (r : QueueRecord) (t : Time)
    → IsNew r
    → bound_job s r.idempotency_key ≡ none
    → get r.state.job.job_id s.records ≡ none
    → Effect s (
        append_event r.state.job.job_id "job_queued"
          (object (field "status" (text (value queued)) nil))
          t
          (index_key r.idempotency_key r.state.job.job_id (put_record r.state.job.job_id r s)))
unfolding append_event put_record
enqueued-Effect s r t new b n =
    let (records, attempts, events, index) =
      index_key-frame r.idempotency_key r.state.job.job_id r s in
    added r new b n records attempts index (
      logged r.state.job.job_id "job_queued" (object (field "status" (text (value queued)) nil)) t (
        ap
          (λ es.
            put r.state.job.job_id
              (rows (get r.state.job.job_id es)
                ++ record {
                  job_id = r.state.job.job_id;
                  sequence = length (rows (get r.state.job.job_id es)) + 1;
                  event_type = "job_queued";
                  payload = object (field "status" (text (value queued)) nil);
                  created_at = t;
                }
                  ∷ [])
              es)
          events))

enqueue_new-Effect :
    (s : Store) (r : QueueRecord) (t : Time) {s' : Store} {x : QueueRecord}
    → IsNew r
    → bound_job s r.idempotency_key ≡ none
    → enqueue_new s r t ≡ ok (s', x)
    → Effect s s'
unfolding enqueue_new
enqueue_new-Effect s r t new b e = elim (Option-cases (get r.state.job.job_id s.records)) [
  | inl n ↦
      subst (Effect s)
        (ap (λ (z : Store × QueueRecord). z.0) (ok-injective (rw (n, enqueue_new) at e)))
        (enqueued-Effect s r t new b n)
  | inr (r', n) ↦ ground arith
]

enqueue_again-Effect :
    (s : Store) (r : QueueRecord) (k : String) {s' : Store} {x : QueueRecord}
    → enqueue_again s r k ≡ ok (s', x)
    → Effect s s'
unfolding enqueue_again
enqueue_again-Effect s r k e = elim (Option-cases (get k s.records)) [
  | inl n ↦ ground arith
  | inr (r', n) ↦ elim (Bool-cases (str_eq r'.request_hash r.request_hash)) [
    | inl m ↦ unchanged-Effect s (rw m at (rw (n, enqueue_again) at e))
    | inr m ↦ ground arith
  ]
]

pub enqueue-Effect :
    (s : Store) (r : QueueRecord) (t : Time) {s' : Store} {x : QueueRecord}
    → IsNew r
    → enqueue s r t ≡ ok (s', x)
    → Effect s s'
unfolding enqueue
enqueue-Effect s r t new e = elim (Option-cases (bound_job s r.idempotency_key)) [
  | inl n ↦ enqueue_new-Effect s r t new n (rw (n, enqueue) at e)
  | inr (k, n) ↦ enqueue_again-Effect s r k (rw (n, enqueue) at e)
]

-- A cancellation that the table allows is a move.
cancel-Move :
    (r : QueueRecord) (t : Time) (b : Bool)
    → is_immediate (status_of r) ≡ b
    → is_one_of (status_of r) (cancelled ∷ []) ≡ false
    → is_one_of (status_of r) (completed ∷ failed ∷ []) ≡ false
    → validate_job_transition (status_of r) (if b then cancelled else cancel_requested) ≡ ok tt
    → Move r (cancel_record r (if b then cancelled else cancel_requested) b t)
unfolding validate_job_transition
cancel-Move r t true i a b v = cancel t i refl
cancel-Move r t false i a b v = ask_cancel t (ground arith) refl

cancel_active-Effect :
    (s : Store) (j : String) (r : QueueRecord) (t : Time) {s' : Store} {x : Option QueueRecord}
    → get j s.records ≡ some r
    → is_one_of (status_of r) (cancelled ∷ []) ≡ false
    → is_one_of (status_of r) (completed ∷ failed ∷ []) ≡ false
    → cancel_active s j r t ≡ ok (s', x)
    → Effect s s'
unfolding cancel_active
cancel_active-Effect s j r t found a b e =
    let now : Bool = is_immediate (status_of r) in
    let next : TaskStatus = if now then cancelled else cancel_requested in
    let (u, v, q) = >>=-eq-ok (validate_job_transition (status_of r) next) _ e in
    let (i, q') = checked-bind (cancel_record r next now t) _ q in
    subst (Effect s) (ap (λ (z : Store × Option QueueRecord). z.0) (ok-injective q')) (
      unfold put_record append_event in
      moved j r _ found (cancel-Move r t now refl a b v) i refl (kept (λ _. refl) refl) refl
        (logged _ _ _ _ refl))

cancel_found-Effect :
    (s : Store) (j : String) (r : QueueRecord) (t : Time) {s' : Store} {x : Option QueueRecord}
    → get j s.records ≡ some r
    → cancel_found s j r t ≡ ok (s', x)
    → Effect s s'
unfolding cancel_found
cancel_found-Effect s j r t found e = elim (Bool-cases (is_one_of (status_of r) (cancelled ∷ []))) [
  | inl c ↦ unchanged-Effect s (rw c at e)
  | inr c ↦ elim (Bool-cases (is_one_of (status_of r) (completed ∷ failed ∷ []))) [
    | inl f ↦ ground arith
    | inr f ↦ cancel_active-Effect s j r t found c f (rw (c, f) at e)
  ]
]

pub request_cancel-Effect :
    (s : Store) (j : String) (t : Time) {s' : Store} {x : Option QueueRecord}
    → request_cancel s j t ≡ ok (s', x)
    → Effect s s'
unfolding request_cancel
request_cancel-Effect s j t e = elim (Option-cases (get j s.records)) [
  | inl n ↦ unchanged-Effect s (rw (n, request_cancel) at e)
  | inr (r, n) ↦ cancel_found-Effect s j r t n (rw (n, request_cancel) at e)
]

pub record_progress_event-Effect :
    (s : Store) (w j ty : String) (p : Json) (t : Time) {s' : Store} {x : EventRecord}
    → record_progress_event s w j ty p t ≡ ok (s', x)
    → Effect s s'
unfolding record_progress_event
record_progress_event-Effect s w j ty p t e =
    let (u1, p1, q1) = >>=-eq-ok (raise_if (not (is_progress_type ty)) value_error) _ e in
    let (u2, p2, q2) = >>=-eq-ok (no_sensitive_fields p) _ q1 in
    let (r, p3, q3) = >>=-eq-ok (leased s w j t) _ q2 in
    let (u3, p4, q4) = >>=-eq-ok (raise_if (not (is_in_flight (status_of r))) lease_lost) _ q3 in
    subst (Effect s) (ap (λ (z : Store × EventRecord). z.0) (ok-injective q4))
      (unfold append_event in idle refl refl refl (logged _ _ _ _ refl))
