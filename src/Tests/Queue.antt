-- ===== src/Tests/Queue.antt =====
-- The queue (backend/yield_rca_api/store.py) on concrete jobs, and its theorems at them.
use autonomous_qwen_react.Prelude.{
  String, true, ◌≡◌, ◌⊎◌, ◌≤◌, refl, map, length, drop, up_to, Option, none, some, ok, raise,
  Result, get, put, values, str_eq, eq_iff, ap, arith, pos, if◌then◌else◌,
}
use autonomous_qwen_react.Prelude.Sorting.{sorted}
use autonomous_qwen_react.Json.{
  null, text, object, field, nil, is_forbidden, normalized_key, validate_no_sensitive_fields,
}
use autonomous_qwen_react.Queue.Status.{
  queued, running, completed, cancelled, cancel_requested, Error, idempotency_conflict,
  validate_job_transition, lease_lost,
}
use autonomous_qwen_react.Queue.Records.{
  RcaState, QueueRecord, status_of, post_init, check_request, check_payload, is_sha256_hex,
  is_idempotency_key,
}
use autonomous_qwen_react.Queue.Store.{
  Store, empty, events_of, owns_active_lease, append_event, put_record, append_attempt,
  replace_attempt, update_attempt,
}
use autonomous_qwen_react.Queue.Workers.{
  is_candidate, claimed_before, start, claim_next, may_beat, heartbeat, leased, completion,
  complete, settle,
}
use autonomous_qwen_react.Queue.Failures.{
  next_status, fail_attempt, is_stale, recover_one, recover_all, stale_job_ids,
  recover_stale_leases,
}
use autonomous_qwen_react.Queue.Clients.{
  enqueue, request_cancel, get_record, list_attempts, list_events, record_progress_event,
}
use autonomous_qwen_react.Queue.Moves.{IsNew}
use autonomous_qwen_react.Queue.Invariant.{Inv, empty-Inv}
use autonomous_qwen_react.Queue.Runs.{
  call, Reach, here, called, enqueue_call, claim_call, cancel_call, complete_call,
}
use autonomous_qwen_react.Queue.Lifecycle.{
  Follows, call-Follows, Reach-Inv, Reach-terminal, Reach-cancelling, attempts_bounded,
}
use autonomous_qwen_react.Queue.Histories.{list_events-drop}
use autonomous_qwen_react.Queue.Idempotency.{enqueue_idempotent}
use autonomous_qwen_react.Queue.Leases.{no_commit_without_lease}
use autonomous_qwen_react.Queue.Claims.{NoneDue, IsFirst, Claims, claim_next-IsFirst}
use autonomous_qwen_react.Queue.Recovery.{after_recovery, recover_stale_leases-ok}
use autonomous_qwen_react.Queue.Exclusion.{by_call, held_job_untouched}
use autonomous_qwen_react.Queue.Effects.Defs.{Effects}

unfoldable pub program : Unit {0}
unfolding call enqueue claim_next heartbeat complete fail_attempt request_cancel
    recover_stale_leases is_forbidden normalized_key get put values sorted post_init check_request
    check_payload is_sha256_hex is_idempotency_key validate_no_sensitive_fields owns_active_lease
    append_event put_record append_attempt replace_attempt update_attempt is_candidate
    claimed_before start may_beat leased completion settle next_status is_stale recover_one
    recover_all stale_job_ids get_record list_attempts list_events validate_job_transition
    record_progress_event
program = tt

abbrev hash : String
hash = "0123456789abcdef0123456789abcdef0123456789abcdef0123456789abcdef"

abbrev pub job : RcaState
job = record {
  job = record {
    job_id = "RCA_1";
    user_query = "Analyze the yield drop.";
    investigation_mode = "product_window";
    source_lot_id = none;
    product_id = none;
    time_window = null;
    status = queued;
    created_at = "2026-07-01T00:00:00+00:00";
    schema_version = "1.0";
  };
  execution_metadata = null;
  rest = null;
}

abbrev new_record : QueueRecord
new_record = record {
  state = job;
  request = null;
  request_hash = hash;
  idempotency_key = some "demo-job-001";
  runtime_config = object (field "agent_mode" (text "deterministic") nil);
  priority = 0;
  attempt_count = 0;
  max_attempts = 3;
  next_attempt_at = none;
  lease_owner = none;
  lease_expires_at = none;
  heartbeat_at = none;
  cancel_requested_at = none;
  started_at = none;
  completed_at = none;
  error = none;
  checkpoint = none;
  version = 1;
}

abbrev store_in : Result Error Store → Store
store_in (ok s) = s
store_in (raise e) = empty

abbrev pub record_in : Store → QueueRecord
record_in s = elim (get "RCA_1" s.records) [ none ↦ new_record | some r ↦ r ]

new_record-IsNew : IsNew new_record
unfolding program
new_record-IsNew = record { built = refl; waiting = refl; unattempted = refl; unleased = refl }

-- The job is enqueued at 10, claimed by `worker-a` at 20 with a lease of 100.
unfoldable pub s_queued : Store
s_queued = store_in (call empty (enqueue_call new_record 10))

unfoldable pub s_running : Store
s_running = store_in (call s_queued (claim_call "worker-a" (pos 100) 20))

s_cancelling : Store
s_cancelling = store_in (call s_running (cancel_call "RCA_1" 30))

s_completed : Store
s_completed = store_in (call s_running (complete_call "worker-a" "RCA_1" job none 40))

pub run_queued : Reach empty s_queued
unfolding program s_queued
run_queued = called (enqueue_call new_record 10) here new_record-IsNew refl

run_running : Reach empty s_running
unfolding program s_queued s_running
run_running = called (claim_call "worker-a" (pos 100) 20) run_queued tt refl

run_cancelling : Reach empty s_cancelling
unfolding program s_queued s_running s_cancelling
run_cancelling = called (cancel_call "RCA_1" 30) run_running tt refl

statuses :
    (status_of (record_in s_running) ≡ running)
    × (status_of (record_in s_cancelling) ≡ cancel_requested)
    × (status_of (record_in s_completed) ≡ completed)
unfolding program s_queued s_running s_cancelling s_completed
statuses = (refl, refl, refl)

pub s_running-Inv : Inv s_running
s_running-Inv = Reach-Inv empty-Inv run_running

-- `worker-b` claims at 30, while `worker-a` holds the job.
held_job_untouched_example :
    get_record (store_in (call s_running (claim_call "worker-b" (pos 100) 30))) "RCA_1"
    ≡ some (record_in s_running)
unfolding program s_queued s_running
held_job_untouched_example =
    held_job_untouched s_running "RCA_1" "worker-a" (record_in s_running) 120 s_running-Inv refl
      refl refl refl
      (by_call (claim_call "worker-b" (pos 100) 30)
        (λ e. absurd (ground (arith, eq_iff "worker-a" "worker-b"))) refl)

claim_next-IsFirst_example :
    ((claim_next s_queued "worker-a" (pos 100) 20 ≡ ok (s_queued, none)) × NoneDue s_queued 20)
    ⊎ ((r : QueueRecord) × (IsFirst s_queued 20 r × Claims s_queued "worker-a" (pos 100) 20 r))
claim_next-IsFirst_example =
    claim_next-IsFirst s_queued "worker-a" (pos 100) 20 (Reach-Inv empty-Inv run_queued) refl

-- The lease of `worker-a` ends at 120.
recover_stale_leases-ok_example :
    (s' : Store) × (recover_stale_leases s_running 120 (pos 5)
      ≡ ok (s', length (stale_job_ids 120 s_running.records)))
    × Inv s'
    × ((j : String) (r : QueueRecord)
        → get j s_running.records ≡ some r
        → get j s'.records ≡ some (if is_stale 120 r then after_recovery 120 (pos 5) r else r))
    × Effects s' s_running
recover_stale_leases-ok_example = recover_stale_leases-ok s_running 120 (pos 5) s_running-Inv

stale_at_the_end : length (stale_job_ids 120 s_running.records) ≡ 1
unfolding program s_queued s_running
stale_at_the_end = refl

call-Follows_example : Follows "RCA_1" (record_in s_running) s_cancelling
unfolding program s_queued s_running s_cancelling
call-Follows_example =
    call-Follows s_running (cancel_call "RCA_1" 30) "RCA_1" (record_in s_running) s_running-Inv tt
      refl refl

Reach-cancelling_example :
    (r' : QueueRecord) × (get "RCA_1" s_cancelling.records ≡ some r')
    × ((status_of r' ≡ cancel_requested) ⊎ (status_of r' ≡ cancelled))
unfolding program s_queued s_running s_cancelling
Reach-cancelling_example =
    Reach-cancelling s_cancelling s_cancelling "RCA_1" (record_in s_cancelling)
      (Reach-Inv empty-Inv run_cancelling) here refl refl

run_completed : Reach empty s_completed
unfolding program s_queued s_running s_completed
run_completed =
    called (complete_call "worker-a" "RCA_1" job none 40) run_running
      (λ r f. ap (λ (y : Option QueueRecord). job_of y) f) refl
  where
    job_of : Option QueueRecord → String
    job_of none = "RCA_1"
    job_of (some r) = r.state.job.job_id

-- A cancellation of a job that is over raises; a recovery changes nothing.
Reach-terminal_example :
    (r' : QueueRecord) × (get "RCA_1" s_completed.records ≡ some r')
    × (status_of r' ≡ status_of (record_in s_completed))
unfolding program s_queued s_running s_completed
Reach-terminal_example =
    Reach-terminal s_completed s_completed "RCA_1" (record_in s_completed)
      (Reach-Inv empty-Inv run_completed) here refl refl

attempts_bounded_example :
    (map (λ a. a.attempt_number) (list_attempts s_running "RCA_1")
      ≡ up_to (record_in s_running).attempt_count)
    × ((record_in s_running).attempt_count ≤ (record_in s_running).max_attempts)
unfolding program s_queued s_running
attempts_bounded_example = attempts_bounded s_running "RCA_1" (record_in s_running) run_running refl

list_events-drop_example :
    (map (λ e. e.sequence) (events_of s_running "RCA_1")
      ≡ up_to (length (events_of s_running "RCA_1")))
    × (list_events s_running "RCA_1" 1 ≡ drop 1 (events_of s_running "RCA_1"))
list_events-drop_example = list_events-drop s_running "RCA_1" 1 run_running

-- The same request again, after the claim.
enqueue_idempotent_example :
    (y : QueueRecord) × (get_record s_running "RCA_1" ≡ some y)
    × (enqueue s_running new_record 50
        ≡ (if str_eq hash hash then ok (s_running, y) else raise idempotency_conflict))
unfolding program s_queued s_running
enqueue_idempotent_example =
    enqueue_idempotent empty new_record 10 {s' = s_queued} {x = new_record} "demo-job-001" s_running
      new_record 50 empty-Inv new_record-IsNew refl refl
      (called (claim_call "worker-a" (pos 100) 20) here tt refl) refl

no_commit_without_lease_example :
    (complete s_running "worker-b" "RCA_1" job none 30 ≡ raise lease_lost)
    × (fail_attempt s_running "worker-b" "RCA_1" null true (pos 5) none none 30 ≡ raise lease_lost)
    × (heartbeat s_running "worker-b" "RCA_1" (pos 100) 30 ≡ ok (s_running, none))
unfolding program s_queued s_running
no_commit_without_lease_example =
    no_commit_without_lease s_running "worker-b" "RCA_1" 30 (record_in s_running) job none null none
      true (pos 5) (pos 100) refl (λ h. absurd (ground (arith, eq_iff "worker-a" "worker-b", h.0)))
      refl
