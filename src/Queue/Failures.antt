-- ===== src/Queue/Failures.antt =====
-- What `InMemoryRCAJobStore` does with an attempt that failed or whose worker went silent:
-- `fail_attempt` and `recover_stale_leases`.
use autonomous_qwen_react.Prelude.{
  pos, ℕ, String, Bool, true, false, ◌&&◌, List, [], ◌∷◌, ◌+◌, length, leb, ltb, Option, none, some,
  get, Dict, if◌then◌else◌, Result, ok, raise, ◌>>=◌, ℤ, max_zero, after,
}
use autonomous_qwen_react.Json.{Json, bool, number, text, instant, null, object, field, nil}
use autonomous_qwen_react.Queue.Status.{
  TaskStatus, running, retry_wait, cancel_requested, failed, cancelled, value, is_one_of, same,
  terminal_job_statuses, Error,
}
use autonomous_qwen_react.Queue.Records.{
  Time, RcaState, QueueRecord, AttemptRecord, with_status, status_of, checked,
}
use autonomous_qwen_react.Queue.Store.{Store}
use autonomous_qwen_react.Queue.Workers.{leased, released, settle, status_payload}

-- The status after an attempt that did not commit.
unfoldable pub next_status : TaskStatus → Bool → QueueRecord → TaskStatus
next_status cancel_requested retryable r = cancelled
next_status _ retryable r =
    if retryable && ltb r.attempt_count r.max_attempts then retry_wait else failed

abbrev pub or_else {ℓ} : {A : Type ℓ} → Option A → A → A
or_else none b = b
or_else (some a) b = a

-- `x if next_status == RETRY_WAIT else None`
abbrev pub if_retried {ℓ} : {A : Type ℓ} → TaskStatus → A → Option A
if_retried s x = if same s retry_wait then some x else none

-- `x if next_status in TERMINAL_JOB_STATUSES else None`
abbrev pub if_terminal {ℓ} : {A : Type ℓ} → TaskStatus → A → Option A
if_terminal s x = if is_one_of s terminal_job_statuses then some x else none

-- The record that `fail_attempt` writes.
abbrev pub failed_record :
    QueueRecord → TaskStatus → Option RcaState → Json → Option Json → ℤ → Time → QueueRecord
failed_record r next state error checkpoint retry_after now = record (released r) {
  state = with_status next (or_else state r.state);
  next_attempt_at = if_retried next (after now (max_zero retry_after));
  completed_at = if_terminal next now;
  error = some error;
  checkpoint = checkpoint;
  version = r.version + 1;
}

abbrev failure_event : TaskStatus → String
failure_event retry_wait = "job_retry_scheduled"
failure_event cancelled = "job_cancelled"
failure_event _ = "job_failed"

abbrev attempt_status : TaskStatus → String
attempt_status retry_wait = "failed"
attempt_status s = value s

abbrev optional_instant : Option Time → Json
optional_instant none = null
optional_instant (some t) = instant t

abbrev failure_payload : TaskStatus → ℕ → Bool → Option Time → Json → Json
failure_payload next n retryable at error = object (
    field "status" (text (value next)) (
      field "attempt_number" (number (pos n)) (
        field "retryable" (bool retryable)
          (field "next_attempt_at" (optional_instant at) (field "error" error nil)))))

abbrev pub failed_attempt : TaskStatus → Json → Option Json → Time → AttemptRecord → AttemptRecord
failed_attempt next error checkpoint now a = record a {
  status = attempt_status next;
  completed_at = some now;
  error = some error;
  checkpoint = checkpoint;
}

unfoldable pub fail_attempt :
    Store
    → String
    → String
    → Json
    → Bool
    → ℤ
    → Option RcaState
    → Option Json
    → Time
    → Result Error (Store × QueueRecord)
fail_attempt s worker_id job_id error retryable retry_after state checkpoint now = do
  r ← leased s worker_id job_id now
  let next = next_status (status_of r) retryable r
  r' ← checked (failed_record r next state error checkpoint retry_after now)
  ok (
    settle job_id r' (failed_attempt next error checkpoint now) (failure_event next)
        (failure_payload next r.attempt_count retryable r'.next_attempt_at error) now s,
    r',
  )

abbrev has_expired : Option Time → Time → Bool
has_expired none now = false
has_expired (some t) now = leb t now

-- The condition on the records that `recover_stale_leases` picks.
unfoldable pub is_stale : Time → QueueRecord → Bool
is_stale now r =
    is_one_of (status_of r) (running ∷ cancel_requested ∷ []) && has_expired r.lease_expires_at now

abbrev pub lease_expired_error : TaskStatus → Json
lease_expired_error next = object (
    field "error_code" (text "WORKER_LEASE_EXPIRED") (
      field "message" (text "Worker lease expired before the attempt committed.")
        (field "retryable" (bool (same next retry_wait)) nil)))

-- The record that `recover_stale_leases` writes.
abbrev pub recovered : QueueRecord → TaskStatus → ℤ → Time → QueueRecord
recovered r next retry_after now = record (released r) {
  state = with_status next r.state;
  next_attempt_at = if_retried next (after now retry_after);
  completed_at = if_terminal next now;
  error = some (lease_expired_error next);
  version = r.version + 1;
}

abbrev recovery_event : TaskStatus → String
recovery_event cancelled = "job_cancelled"
recovery_event _ = "job_lease_recovered"

abbrev pub abandoned : Json → Time → AttemptRecord → AttemptRecord
abandoned error now a = record a {
  status = "abandoned";
  completed_at = some now;
  error = some error;
}

-- What the body of the loop writes.
unfoldable pub write_recovered : TaskStatus → Time → String → QueueRecord → Store → Store
write_recovered next now job_id r' s =
    settle job_id r' (abandoned (lease_expired_error next) now) (recovery_event next)
      (status_payload next r'.attempt_count) now s

-- The body of the loop, for a record that is stale.
unfoldable pub recover_one : ℤ → Time → String → QueueRecord → Store → Result Error Store
unfolding write_recovered
recover_one retry_after now job_id r s = do
  let next = next_status (status_of r) true r
  r' ← checked (recovered r next retry_after now)
  ok (write_recovered next now job_id r' s)

-- The identifiers of the stale records, in the order of the dictionary.
unfoldable pub stale_job_ids : Time → Dict QueueRecord → List String
stale_job_ids now [] = []
stale_job_ids now ((k, r) ∷ d) =
    let rest = stale_job_ids now d in if is_stale now r then k ∷ rest else rest

-- The loop over the identifiers; a missing one would raise `KeyError`.
unfoldable pub recover_all : ℤ → Time → List String → Store → Result Error Store
recover_all retry_after now [] s = ok s
recover_all retry_after now (k ∷ ks) s = elim (get k s.records) [
  | none ↦ raise Error.key_error
  | some r ↦ do s' ← recover_one retry_after now k r s; recover_all retry_after now ks s'
]

unfoldable pub recover_stale_leases : Store → Time → ℤ → Result Error (Store × ℕ)
recover_stale_leases s now retry_after = do
  let ids = stale_job_ids now s.records
  s' ← recover_all retry_after now ids s
  ok (s', length ids)
