-- ===== src/Worker/Once.antt =====
-- `RCAQueueWorker.run_once` of backend/yield_rca_api/worker.py, over the job queue. The parameters:
-- `workflow` is the run of the workflow on a claimed record; `evidence_count` and `finding_count` read a
-- state. The audit, the metrics, the log and the memory service, whose failures the worker swallows,
-- are left out. Spans are counted in microseconds.
use autonomous_qwen_react.Prelude.{
  pos, ℕ, ◌+◌, ◌-◌, ◌*◌, ◌^◌, String, Bool, true, false, ◌||◌, [], leb, Option, none, some, Result,
  ok, ◌>>=◌, ◌>>◌, raise_if, if◌then◌else◌, ℤ, pos, negsuc, at_most_zero,
}
use autonomous_qwen_react.Json.{Json, text, number, object, field, nil}
use autonomous_qwen_react.Queue.Status.{Error}
use autonomous_qwen_react.Queue.Records.{Time, RcaState, QueueRecord}
use autonomous_qwen_react.Queue.Store.{Store}
use autonomous_qwen_react.Queue.Workers.{claim_next, complete}
use autonomous_qwen_react.Queue.Failures.{fail_attempt}
use autonomous_qwen_react.Queue.Clients.{record_worker_heartbeat}
use autonomous_qwen_react.Worker.Faults.{Fault, Raised, classify_worker_error}

pub record WorkerSettings : Type 0 where
  pub lease_seconds : ℤ
  pub heartbeat_seconds : ℤ
  pub poll_seconds : ℤ
  pub recovery_seconds : ℤ
  pub retry_base_seconds : ℤ

-- `a >= b`
abbrev pub at_least : ℤ → ℤ → Bool
at_least (pos a) (pos b) = leb b a
at_least (pos a) (negsuc b) = true
at_least (negsuc a) (pos b) = false
at_least (negsuc a) (negsuc b) = leb a b

-- A `ValueError`.
pub data SettingsError : Type 0 where
  not_positive heartbeat_too_long : SettingsError

-- `WorkerSettings.__post_init__`
unfoldable pub check_settings : WorkerSettings → Result SettingsError (Unit {0})
check_settings c = do
  raise_if
      (at_most_zero c.lease_seconds
        || at_most_zero c.heartbeat_seconds
        || at_most_zero c.poll_seconds
        || at_most_zero c.recovery_seconds
        || at_most_zero c.retry_base_seconds)
      SettingsError.not_positive
  raise_if (at_least c.heartbeat_seconds c.lease_seconds) SettingsError.heartbeat_too_long

-- `retry_base_seconds * (2 ** (attempt_count - 1))`; a claimed record has an attempt.
abbrev pub times : ℤ → ℕ → ℤ
times (pos a) n = pos (a * n)
times (negsuc a) n = negsuc ((a + 1) * n - 1)

unfoldable pub retry_after : WorkerSettings → QueueRecord → ℤ
retry_after c r = times c.retry_base_seconds (2 ^ (r.attempt_count - 1))

-- The state of a `SupervisorExecutionError`.
abbrev pub state_of : Fault → Option RcaState
state_of (Fault.supervisor_execution_error code state) = state
state_of _ = none

abbrev pub is_lease_lost : Fault → Bool
is_lease_lost Fault.job_lease_lost_error = true
is_lease_lost _ = false

-- What the store raised, as an exception of the worker.
abbrev pub raised_by_store : Error → Raised
raised_by_store Error.lease_lost = record { error = Fault.job_lease_lost_error; causes = [] }
raised_by_store _ = record { error = Fault.other_error; causes = [] }

abbrev pub failed_checkpoint : Json
failed_checkpoint = object (field "stage" (text "workflow_failed") nil)

-- The store after a call, which an exception leaves as it was.
abbrev pub stored {ℓ} : {A : Type ℓ} → Store → Result Error (Store × A) → Store
stored s (ok (s', a)) = s'
stored s (Result.raise e) = s

module _ (settings : WorkerSettings) (worker_id : String) where
  -- The handlers of the exceptions of `run_once`, for the record that was claimed.
  unfoldable pub handle : Store → QueueRecord → Raised → Time → Store
  handle s r e now =
      if is_lease_lost e.error
      then s
      else stored s (
          fail_attempt s worker_id r.state.job.job_id (classify_worker_error e).0
            (classify_worker_error e).1 (retry_after settings r) (state_of e.error)
            (some failed_checkpoint) now)

module _ (settings : WorkerSettings) (worker_id : String)
    (evidence_count finding_count : RcaState → ℕ) where
  abbrev pub completed_checkpoint : RcaState → Json
  completed_checkpoint st = object (
      field "stage" (text "workflow_completed") (
        field "evidence_count" (number (pos (evidence_count st)))
          (field "finding_count" (number (pos (finding_count st))) nil)))

  -- `complete`, inside the `try` of `run_once`.
  abbrev pub after_complete :
      Store → QueueRecord → Time → Result Error (Store × QueueRecord) → Store
  after_complete s r now (ok (s', r')) = s'
  after_complete s r now (Result.raise e) = handle settings worker_id s r (raised_by_store e) now

  -- The rest of `run_once` after the run of the workflow; `lost` is the flag of the heartbeat thread.
  unfoldable pub finish : Store → QueueRecord → Bool → Result Raised RcaState → Time → Store
  finish s r lost (Result.raise e) now = handle settings worker_id s r e now
  finish s r lost (ok st) now =
      if lost
      then s
      else after_complete s r now
          (complete s worker_id r.state.job.job_id st (some (completed_checkpoint st)) now)

-- The parameter `meanwhile` is what happens to the store while the workflow runs: heartbeats of this
-- worker, its progress events, and the calls of all others; and whether a heartbeat failed.
module _ (settings : WorkerSettings) (worker_id : String)
    (evidence_count finding_count : RcaState → ℕ) (metadata : Json)
    (workflow : QueueRecord → Result Raised RcaState) (meanwhile : Store → Store × Bool) where
  -- `run_once` after the claim.
  unfoldable pub after_claim : Store → Option QueueRecord → Time → Result Error (Store × Bool)
  after_claim s none committed_at = ok (s, false)
  after_claim s (some r) committed_at =
      let (s', lost) = meanwhile s in
      ok (
        record_worker_heartbeat
            (finish settings worker_id evidence_count finding_count s' r lost (workflow r)
              committed_at)
            worker_id 0 metadata committed_at,
        true,
      )

  -- `run_once` from the claim on, with the instants at which it claims and commits.
  unfoldable pub attempt : Store → Time → Time → Result Error (Store × Bool)
  attempt s claimed_at committed_at = do
    (s1, claim) ← claim_next s worker_id settings.lease_seconds claimed_at
    after_claim s1 claim committed_at

  -- `run_once`
  unfoldable pub run_once : Store → Time → Time → Result Error (Store × Bool)
  run_once s claimed_at committed_at =
      attempt (record_worker_heartbeat s worker_id 0 metadata claimed_at) claimed_at committed_at
