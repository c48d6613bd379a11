-- ===== src/Queue/Clients.antt =====
-- The methods of `InMemoryRCAJobStore` that the API calls: enqueue, cancel, the histories, and the
-- progress events and heartbeats of workers.
use autonomous_qwen_react.Prelude.{
  ℕ, String, Bool, not, List, [], ◌∷◌, ◌+◌, filter, any, ltb, str_eq, codes, starts_with, Option,
  none, some, get, put, if◌then◌else◌, Result, ok, raise, ◌>>=◌, ◌>>◌, raise_if,
}
use autonomous_qwen_react.Json.{Json, text, object, field, nil}
use autonomous_qwen_react.Queue.Status.{
  TaskStatus, queued, running, retry_wait, cancel_requested, completed, failed, cancelled, value,
  is_one_of, validate_job_transition, Error, duplicate_job, idempotency_conflict, lease_lost,
  not_cancellable, value_error, key_error,
}
use autonomous_qwen_react.Queue.Records.{
  Time, QueueRecord, AttemptRecord, EventRecord, WorkerHeartbeat, with_status, status_of, checked,
  no_sensitive_fields,
}
use autonomous_qwen_react.Queue.Store.{
  Store, append_event, put_record, attempts_of, events_of, next_event,
}
use autonomous_qwen_react.Queue.Workers.{leased}

-- `self._idempotency_index[key] = job_id`, where the record has a key.
abbrev pub index_key : Option String → String → Store → Store
index_key none job_id s = s
index_key (some k) job_id s = record s { idempotency_index = put k job_id s.idempotency_index }

-- The part of `enqueue` behind the look at the idempotency key.
unfoldable pub enqueue_new : Store → QueueRecord → Time → Result Error (Store × QueueRecord)
enqueue_new s r now = elim (get r.state.job.job_id s.records) [
  | some _ ↦ raise duplicate_job
  | none ↦ ok (
    append_event r.state.job.job_id "job_queued" (object (field "status" (text (value queued)) nil))
        now (index_key r.idempotency_key r.state.job.job_id (put_record r.state.job.job_id r s)),
    r,
  )
]

-- The answer for a key that is bound to a job.
unfoldable pub enqueue_again : Store → QueueRecord → String → Result Error (Store × QueueRecord)
enqueue_again s r existing_id = elim (get existing_id s.records) [
  | none ↦ raise key_error
  | some existing ↦
      if str_eq existing.request_hash r.request_hash
      then ok (s, existing)
      else raise idempotency_conflict
]

abbrev pub bound_job : Store → Option String → Option String
bound_job s none = none
bound_job s (some k) = get k s.idempotency_index

-- `now` is what the clock shows.
unfoldable pub enqueue : Store → QueueRecord → Time → Result Error (Store × QueueRecord)
unfolding enqueue_new enqueue_again
enqueue s r now = elim (bound_job s r.idempotency_key) [
  | none ↦ enqueue_new s r now
  | some existing_id ↦ enqueue_again s r existing_id
]

unfoldable pub get_record : Store → String → Option QueueRecord
get_record s job_id = get job_id s.records

-- `current_status in {QUEUED, RETRY_WAIT}`
abbrev pub is_immediate : TaskStatus → Bool
is_immediate c = is_one_of c (queued ∷ retry_wait ∷ [])

-- The record that `request_cancel` writes.
abbrev pub cancel_record : QueueRecord → TaskStatus → Bool → Time → QueueRecord
cancel_record r next immediate now = record r {
  state = with_status next r.state;
  cancel_requested_at = some now;
  completed_at = if immediate then some now else r.completed_at;
  next_attempt_at = if immediate then none else r.next_attempt_at;
  version = r.version + 1;
}

-- The part of `request_cancel` behind the early exits.
unfoldable pub cancel_active :
    Store → String → QueueRecord → Time → Result Error (Store × Option QueueRecord)
cancel_active s job_id r now = do
  let immediate = is_immediate (status_of r)
  let next = if immediate then cancelled else cancel_requested
  validate_job_transition (status_of r) next
  r' ← checked (cancel_record r next immediate now)
  ok (
    append_event job_id (if immediate then "job_cancelled" else "job_cancel_requested")
        (object (field "status" (text (value next)) nil)) now (put_record job_id r' s),
    some r',
  )

unfoldable pub cancel_found :
    Store → String → QueueRecord → Time → Result Error (Store × Option QueueRecord)
unfolding cancel_active
cancel_found s job_id r now =
    if is_one_of (status_of r) (cancelled ∷ [])
    then ok (s, some r)
    else if is_one_of (status_of r) (completed ∷ failed ∷ [])
    then raise not_cancellable
    else cancel_active s job_id r now

unfoldable pub request_cancel : Store → String → Time → Result Error (Store × Option QueueRecord)
unfolding cancel_found
request_cancel s job_id now = elim (get job_id s.records) [
  | none ↦ ok (s, none)
  | some r ↦ cancel_found s job_id r now
]

abbrev started : Option WorkerHeartbeat → Time → Time
started none now = now
started (some h) now = h.started_at

-- `active_lease_count` is a natural number, so it is never refused as negative.
unfoldable pub record_worker_heartbeat : Store → String → ℕ → Json → Time → Store
record_worker_heartbeat s worker_id active_lease_count metadata now = record s {
  worker_heartbeats =
      put worker_id
        (record {
          started_at = started (get worker_id s.worker_heartbeats) now;
          last_seen_at = now;
          active_lease_count = active_lease_count;
          metadata = metadata;
        })
        s.worker_heartbeats;
}

unfoldable pub list_attempts : Store → String → List AttemptRecord
list_attempts s job_id = attempts_of s job_id

-- `after_sequence` is a natural number, so it is never refused as negative.
unfoldable pub list_events : Store → String → ℕ → List EventRecord
list_events s job_id after_sequence =
    filter (λ e. ltb after_sequence e.sequence) (events_of s job_id)

abbrev progress_prefixes : List String
progress_prefixes = "investigation_" ∷ "planner_" ∷ "action_" ∷ "agent_" ∷ []

unfoldable pub is_progress_type : String → Bool
is_progress_type event_type = any (λ p. starts_with (codes p) (codes event_type)) progress_prefixes

unfoldable pub record_progress_event :
    Store → String → String → String → Json → Time → Result Error (Store × EventRecord)
record_progress_event s worker_id job_id event_type payload now = do
  raise_if (not (is_progress_type event_type)) value_error
  no_sensitive_fields payload
  r ← leased s worker_id job_id now
  raise_if (not (is_one_of (status_of r) (running ∷ cancel_requested ∷ []))) lease_lost
  ok (append_event job_id event_type payload now s, next_event s job_id event_type payload now)
