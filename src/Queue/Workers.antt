-- ===== src/Queue/Workers.antt =====
-- The methods of `InMemoryRCAJobStore` that a worker calls: claims, heartbeats, commits.
use autonomous_qwen_react.Prelude.{
  pos, ℕ, String, Bool, true, ◌&&◌, ◌||◌, List, [], ◌∷◌, ◌+◌, filter, leb, ltb, ◌==◌, codes,
  codes_lt, Option, none, some, get, values, if◌then◌else◌, Result, ok, raise, ◌>>=◌, ◌>>◌,
  raise_if, ℤ, at_most_zero, after,
}
use autonomous_qwen_react.Prelude.Sorting.{sorted}
use autonomous_qwen_react.Json.{Json, number, text, object, field, nil}
use autonomous_qwen_react.Queue.Status.{
  TaskStatus, queued, running, retry_wait, cancel_requested, completed, cancelled, value, is_one_of,
  Error, value_error, lease_lost,
}
use autonomous_qwen_react.Queue.Records.{
  Time, RcaState, QueueRecord, AttemptRecord, with_status, status_of, checked,
}
use autonomous_qwen_react.Queue.Store.{
  Store, append_event, put_record, append_attempt, replace_attempt, owns_active_lease,
}

abbrev is_due : Option Time → Time → Bool
is_due none now = true
is_due (some t) now = leb t now

-- The condition on the candidates of `claim_next`.
unfoldable pub is_candidate : Time → QueueRecord → Bool
is_candidate now r =
    is_one_of (status_of r) (queued ∷ retry_wait ∷ []) && is_due r.next_attempt_at now

-- The order of the sort keys `(-priority, created_at)`.
unfoldable pub claimed_before : QueueRecord → QueueRecord → Bool
claimed_before a b =
    ltb b.priority a.priority
    || (a.priority == b.priority
        && codes_lt (codes a.state.job.created_at) (codes b.state.job.created_at))

abbrev first_time : Option Time → Time → Option Time
first_time none now = some now
first_time (some t) now = some t

-- The record that `claim_next` writes.
abbrev pub claimed : QueueRecord → String → ℤ → Time → QueueRecord
claimed r worker_id lease_seconds now = record r {
  state = with_status running r.state;
  attempt_count = r.attempt_count + 1;
  next_attempt_at = none;
  lease_owner = some worker_id;
  lease_expires_at = some (after now lease_seconds);
  heartbeat_at = some now;
  started_at = first_time r.started_at now;
  error = none;
  version = r.version + 1;
}

abbrev pub new_attempt : String → ℕ → String → Time → AttemptRecord
new_attempt job_id n worker_id now = record {
  job_id = job_id;
  attempt_number = n;
  worker_id = worker_id;
  status = value running;
  started_at = now;
  completed_at = none;
  error = none;
  checkpoint = none;
}

-- The payload `{"status": ..., "attempt_number": ...}`.
abbrev pub status_payload : TaskStatus → ℕ → Json
status_payload s n =
    object (field "status" (text (value s)) (field "attempt_number" (number (pos n)) nil))

-- What `claim_next` writes for the record that it has chosen.
unfoldable pub start : String → Time → QueueRecord → Store → Store
start worker_id now r s =
    let job_id = r.state.job.job_id in
    append_event job_id "job_started" (status_payload running r.attempt_count) now (
      append_attempt job_id (new_attempt job_id r.attempt_count worker_id now)
        (put_record job_id r s))

unfoldable pub claim_first :
    Store → String → ℤ → Time → List QueueRecord → Result Error (Store × Option QueueRecord)
claim_first s worker_id lease_seconds now [] = ok (s, none)
claim_first s worker_id lease_seconds now (r ∷ _) = do
  r' ← checked (claimed r worker_id lease_seconds now)
  ok (start worker_id now r' s, some r')

unfoldable pub claim_next : Store → String → ℤ → Time → Result Error (Store × Option QueueRecord)
unfolding claim_first
claim_next s worker_id lease_seconds now = do
  raise_if (at_most_zero lease_seconds) value_error
  claim_first s worker_id lease_seconds now
      (sorted claimed_before (filter (is_candidate now) (values s.records)))

-- The test of `heartbeat` on a record that is there.
unfoldable pub may_beat : QueueRecord → String → Time → Bool
may_beat r worker_id now =
    owns_active_lease r worker_id now && is_one_of (status_of r) (running ∷ cancel_requested ∷ [])

abbrev pub beaten : QueueRecord → ℤ → Time → QueueRecord
beaten r lease_seconds now = record r {
  heartbeat_at = some now;
  lease_expires_at = some (after now lease_seconds);
  version = r.version + 1;
}

unfoldable pub heartbeat_found :
    Store → String → String → ℤ → Time → QueueRecord → Result Error (Store × Option Time)
heartbeat_found s worker_id job_id lease_seconds now r =
    if may_beat r worker_id now
    then (do
      r' ← checked (beaten r lease_seconds now)
      ok (put_record job_id r' s, some (after now lease_seconds)))
    else ok (s, none)

-- Returns the new end of the lease, or `none` where the worker has no lease to extend.
unfoldable pub heartbeat : Store → String → String → ℤ → Time → Result Error (Store × Option Time)
unfolding heartbeat_found
heartbeat s worker_id job_id lease_seconds now = do
  raise_if (at_most_zero lease_seconds) value_error
  elim (get job_id s.records) [
    | none ↦ ok (s, none)
    | some r ↦ heartbeat_found s worker_id job_id lease_seconds now r
  ]

-- `self._records.get(job_id)` under the guard that the worker owns an active lease.
unfoldable pub leased : Store → String → String → Time → Result Error QueueRecord
leased s worker_id job_id now = elim (get job_id s.records) [
  | none ↦ raise lease_lost
  | some r ↦ if owns_active_lease r worker_id now then ok r else raise lease_lost
]

-- The final status, state and event of `complete`.
unfoldable pub completion :
    TaskStatus → RcaState → RcaState → Result Error (TaskStatus × RcaState × String)
completion cancel_requested old new = ok (cancelled, with_status cancelled old, "job_cancelled")
completion running old new = ok (completed, with_status completed new, "job_completed")
completion _ old new = raise lease_lost

-- A record without its lease.
abbrev pub released : QueueRecord → QueueRecord
released r = record r { lease_owner = none; lease_expires_at = none; heartbeat_at = none }

-- The record that `complete` writes.
abbrev pub committed : QueueRecord → RcaState → Option Json → Time → QueueRecord
committed r state checkpoint now = record (released r) {
  state = state;
  completed_at = some now;
  checkpoint = checkpoint;
  error = none;
  version = r.version + 1;
}

-- What `complete` and the failures write: the record, the end of its attempt, and an event.
unfoldable pub settle :
    String → QueueRecord → (AttemptRecord → AttemptRecord) → String → Json → Time → Store → Store
settle job_id r update event_type payload now s =
    append_event job_id event_type payload now
      (replace_attempt job_id r.attempt_count update (put_record job_id r s))

abbrev pub ended : TaskStatus → Option Json → Time → AttemptRecord → AttemptRecord
ended final checkpoint now a = record a {
  status = value final;
  completed_at = some now;
  checkpoint = checkpoint;
}

unfoldable pub complete :
    Store → String → String → RcaState → Option Json → Time → Result Error (Store × QueueRecord)
complete s worker_id job_id state checkpoint now = do
  r ← leased s worker_id job_id now
  (final, final_state, event_type) ← completion (status_of r) r.state state
  r' ← checked (committed r final_state checkpoint now)
  ok (
    settle job_id r' (ended final checkpoint now) event_type (status_payload final r.attempt_count)
        now s,
    r',
  )
