-- ===== src/Tests/Worker.antt =====
-- The job worker (backend/yield_rca_api/worker.py) on a queue with one running job.
use autonomous_qwen_react.Prelude.{
  ℕ, String, true, false, ◌≡◌, ◌≢◌, ◌↔◌, refl, [], ◌∷◌, none, some, ok, raise, pos, inl,
}
use autonomous_qwen_react.Json.{Json, text, field, nil}
use autonomous_qwen_react.Queue.Status.{failed}
use autonomous_qwen_react.Queue.Records.{RcaState, QueueRecord, status_of, check_payload}
use autonomous_qwen_react.Worker.Faults.{
  Fault, Raised, final_error, classify_worker_error, llm_code,
}
use autonomous_qwen_react.Worker.Transient.{IsTransient, classify_worker_error-IsTransient}
use autonomous_qwen_react.Worker.Once.{WorkerSettings, finish}
use autonomous_qwen_react.Worker.Outcomes.{Outcome, Released, finish-Outcome}
use autonomous_qwen_react.Worker.Modes.{
  Runtime, run_workflow, names_defect, select_orchestration_mode,
}
use autonomous_qwen_react.Worker.Selection.{IsControlled, select_orchestration_mode_iff}
use autonomous_qwen_react.Worker.Mismatch.{Matches, mismatch_fails}
use autonomous_qwen_react.Tests.Queue.{program, job, record_in, s_queued, s_running}

abbrev settings : WorkerSettings
settings = record {
  lease_seconds = pos 180;
  heartbeat_seconds = pos 30;
  poll_seconds = pos 1;
  recovery_seconds = pos 30;
  retry_base_seconds = pos 5;
}

-- An `LLMCallError` with status 503 inside a `SupervisorExecutionError`.
abbrev unavailable : Raised
unavailable = record {
  error = Fault.supervisor_execution_error (some "X") none;
  causes = Fault.llm_call_error none (some 503) none ∷ [];
}

abbrev none_counted : RcaState → ℕ
none_counted st = 0

classify_worker_error-IsTransient_example :
    (((classify_worker_error unavailable).1 ≡ true)
      ↔ IsTransient (unavailable.error ∷ unavailable.causes))
    × (check_payload (some (classify_worker_error unavailable).0) ≡ ok tt)
classify_worker_error-IsTransient_example = classify_worker_error-IsTransient unavailable

is_retried : (classify_worker_error unavailable).1 ≡ true
unfolding classify_worker_error llm_code
is_retried = refl

-- The retry comes 5 * 2 ** 0 after the failure at 40.
finish-Outcome_example :
    (v' : QueueRecord) × Released settings "worker-a" none_counted none_counted
      (finish settings "worker-a" none_counted none_counted s_running
        (record_in s_running)
        false
        (raise unavailable)
        40)
      (record_in s_running)
      v'
    × Outcome settings (record_in s_running) (record_in s_running) 40 (raise unavailable) v'
unfolding program s_queued s_running
finish-Outcome_example =
    finish-Outcome settings "worker-a" none_counted none_counted s_running (record_in s_running)
      (record_in s_running) false (raise unavailable) 40
      (record { found = refl; owned = refl; built = refl }) (inl refl) refl

abbrev text_of : Json → String
text_of (Json.text s) = s
text_of _ = ""

-- The running job is configured for another mode of the agents, and names nothing else.
abbrev runtime : Runtime
runtime = record {
  agent_mode = "llm";
  provider = "dashscope";
  model = "qwen";
  orchestration_mode = "fixed";
  dataset = "demo";
}

not_configured : ¬ Matches runtime (field "agent_mode" (text "deterministic") nil)
not_configured m = cc (m.provider)

mismatch_fails_example :
    (v' : QueueRecord) × Released settings "worker-a" none_counted none_counted
      (finish settings "worker-a" none_counted none_counted s_running
        (record_in s_running)
        false
        (run_workflow text_of "worker-a" runtime (λ q j p l m. ok job) (record_in s_running))
        40)
      (record_in s_running)
      v'
    × (status_of v' ≡ failed)
    × (v'.error
        ≡ some (
            final_error "WORKER_RUNTIME_CONFIG_MISMATCH"
              "Worker runtime does not match the immutable Job configuration."))
unfolding program s_queued s_running
mismatch_fails_example =
    mismatch_fails settings "worker-a" none_counted none_counted text_of runtime
      (λ q j p l m. ok job) s_running (record_in s_running) (record_in s_running)
      (field "agent_mode" (text "deterministic") nil) false 40 refl not_configured
      (record { found = refl; owned = refl; built = refl }) refl

abbrev controlled : String
controlled = "controlled_react"

select_orchestration_mode_iff_example :
    (((select_orchestration_mode controlled "lot" (some "L1") "Scratch on L1").0 ≡ controlled)
      ↔ IsControlled controlled "lot" (some "L1") "Scratch on L1")
    × (((select_orchestration_mode controlled "lot" (some "L1") "Scratch on L1").1 ≢ none) ↔ (
        (controlled ≡ controlled)
        × ((select_orchestration_mode controlled "lot" (some "L1") "Scratch on L1").0
            ≢ controlled)))
select_orchestration_mode_iff_example =
    select_orchestration_mode_iff controlled "lot" (some "L1") "Scratch on L1"

selects :
    (select_orchestration_mode "controlled_react" "lot" (some "L1") "Scratch on L1"
      ≡ ("controlled_react", none))
    × (select_orchestration_mode "controlled_react" "lot" (some "L1") "批次划伤"
        ≡ ("controlled_react", none))
    × ((select_orchestration_mode "controlled_react" "lot" (some "L1") "Yield drop").0 ≡ "fixed")
unfolding select_orchestration_mode names_defect
selects = (refl, refl, refl)
