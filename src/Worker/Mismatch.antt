-- ===== src/Worker/Mismatch.antt =====
-- A worker whose runtime is not that of the job (backend/yield_rca_api/worker.py).
use autonomous_qwen_react.Prelude.{
  ℕ, String, Bool, true, false, [], ◌∷◌, Option, some, Result, raise, ◌≡◌, refl, ap, ◌∙◌, inl, inr,
  none, eq_iff, Bool-cases, arith,
}
use autonomous_qwen_react.Json.{Json, Fields, null, text, number, instant, array, object}
use autonomous_qwen_react.Queue.Status.{running, failed}
use autonomous_qwen_react.Queue.Records.{Time, RcaState, QueueRecord, status_of}
use autonomous_qwen_react.Queue.Store.{Store}
use autonomous_qwen_react.Worker.Faults.{
  Fault, Raised, final_error, classify_worker_error, classify_other,
}
use autonomous_qwen_react.Worker.Transient.{IsTransient, classify_worker_error-IsTransient}
use autonomous_qwen_react.Worker.Once.{WorkerSettings, finish}
use autonomous_qwen_react.Worker.Commits.{Owned}
use autonomous_qwen_react.Worker.Outcomes.{
  Outcome, cancels, retries, fails, Released, finish-Outcome,
}
use autonomous_qwen_react.Worker.Modes.{
  Runtime, entry, is_text, has_mismatch, validate_runtime_config, run_workflow,
}

abbrev mismatched : Raised
mismatched = record { error = Fault.worker_runtime_configuration_error; causes = [] }

mismatched_flag : (classify_worker_error mismatched).1 ≡ false
unfolding classify_worker_error
mismatched_flag = refl

mismatched_payload :
    (classify_worker_error mismatched).0
    ≡ final_error "WORKER_RUNTIME_CONFIG_MISMATCH"
        "Worker runtime does not match the immutable Job configuration."
unfolding classify_worker_error classify_other
mismatched_payload = refl

not-IsTransient : ¬ IsTransient (mismatched.error ∷ mismatched.causes)
not-IsTransient t =
    ground (arith, (classify_worker_error-IsTransient mismatched).0.1 t, mismatched_flag)

-- The configuration of a job names this runtime: each of its five entries is there, with the worker's own value.
pub record Matches (w : Runtime) (expected : Fields) : Type 0 where
  pub agent_mode : entry "agent_mode" expected ≡ some (text w.agent_mode)
  pub provider : entry "provider" expected ≡ some (text w.provider)
  pub model : entry "model" expected ≡ some (text w.model)
  pub orchestration_mode : entry "orchestration_mode" expected ≡ some (text w.orchestration_mode)
  pub dataset : entry "dataset" expected ≡ some (text w.dataset)

is_text-eq : (j : Option Json) (s : String) → is_text j s ≡ true → j ≡ some (text s)
is_text-eq none s h = cc
is_text-eq (some (text t)) s h = ap (λ x. some (text x)) ((eq_iff t s).0 h)
is_text-eq (some null) s h = cc
is_text-eq (some (Json.bool b)) s h = cc
is_text-eq (some (number n)) s h = cc
is_text-eq (some (Json.float z p)) s h = cc
is_text-eq (some (instant t)) s h = cc
is_text-eq (some (array xs)) s h = cc
is_text-eq (some (object fs)) s h = cc

matching : (w : Runtime) (expected : Fields) → has_mismatch w expected ≡ false → Matches w expected
unfolding has_mismatch
matching w expected h = record {
  agent_mode = is_text-eq (entry "agent_mode" expected) w.agent_mode (ground (arith, h));
  provider = is_text-eq (entry "provider" expected) w.provider (ground (arith, h));
  model = is_text-eq (entry "model" expected) w.model (ground (arith, h));
  orchestration_mode =
      is_text-eq (entry "orchestration_mode" expected) w.orchestration_mode (ground (arith, h));
  dataset = is_text-eq (entry "dataset" expected) w.dataset (ground (arith, h));
}

not_matching :
    (w : Runtime) (expected : Fields) → ¬ Matches w expected → has_mismatch w expected ≡ true
not_matching w expected n = elim (Bool-cases (has_mismatch w expected)) [
  | inl e ↦ e
  | inr e ↦ absurd (n (matching w expected e))
]

module _ (settings : WorkerSettings) (r v : QueueRecord) (now : Time) where
  failed_at_once :
      (e : Raised) (v' : QueueRecord)
      → status_of v ≡ running
      → ¬ IsTransient (e.error ∷ e.causes)
      → Outcome settings r v now (raise e) v'
      → (status_of v' ≡ failed) × (v'.error ≡ some (classify_worker_error e).0)
  failed_at_once e v' c n (cancels _ _ k _ _) = absurd (ground (arith, c, k))
  failed_at_once e v' c n (retries _ _ _ (t, _) _ _ _) = absurd (n t)
  failed_at_once e v' c n (fails _ _ _ _ st _ x) = (st, x)

module _ (settings : WorkerSettings) (worker_id : String)
    (evidence_count finding_count : RcaState → ℕ) (str_of : Json → String) (w : Runtime)
    (run : (user_query job_id plan_id : String) (lot_id : Option String) (mode : String)
      → Result Raised RcaState) where
  run_workflow-mismatch :
      (r : QueueRecord) (expected : Fields)
      → r.runtime_config ≡ object expected
      → has_mismatch w expected ≡ true
      → run_workflow str_of worker_id w run r ≡ raise mismatched
  unfolding run_workflow validate_runtime_config
  run_workflow-mismatch r expected d h = rw (d, h) refl

  -- A worker whose runtime does not match the dictionary of the job's configuration, since the mode of the agents,
  -- the provider, the model, the mode of the orchestration or the dataset is missing in it or another, fails the running job at once, whatever its workflow
  -- would do: the job is released as failed, with the error of the mismatch, and not retried.
  pub mismatch_fails :
      (s : Store) (r v : QueueRecord) (expected : Fields) (lost : Bool) (now : Time)
      → r.runtime_config ≡ object expected
      → ¬ Matches w expected
      → Owned s worker_id r.state.job.job_id now v
      → status_of v ≡ running
      → (v' : QueueRecord) × Released settings worker_id evidence_count finding_count
          (finish settings worker_id evidence_count finding_count s r lost
            (run_workflow str_of worker_id w run r)
            now)
          r
          v'
        × (status_of v' ≡ failed)
        × (v'.error
            ≡ some (
                final_error "WORKER_RUNTIME_CONFIG_MISMATCH"
                  "Worker runtime does not match the immutable Job configuration."))
  mismatch_fails s r v expected lost now d n o c =
      let (v', released, outcome) =
        finish-Outcome settings worker_id evidence_count finding_count s r v lost (raise mismatched)
          now o (inl c) refl in
      let (st, x) = failed_at_once settings r v now mismatched v' c not-IsTransient outcome in
      rw (run_workflow-mismatch r expected d (not_matching w expected n))
        (v', released, st, x ∙ ap some mismatched_payload)
