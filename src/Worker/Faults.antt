-- ===== src/Worker/Faults.antt =====
-- `classify_worker_error` of backend/yield_rca_api/worker.py.
use autonomous_qwen_react.Prelude.{
  ℕ, String, Bool, true, false, List, [], ◌∷◌, codes, codes_eq, lower, map, leb, ◌==◌, ◌||◌,
  non_empty, Option, none, some, if◌then◌else◌,
}
use autonomous_qwen_react.Json.{Json, bool, text, object, field, nil, optional_text}
use autonomous_qwen_react.Queue.Records.{RcaState}

-- An exception, as far as the worker looks at it: `LLMCallError`, `LLMOutputValidationError`,
-- `SupervisorExecutionError`, `WorkerRuntimeConfigurationError`, `JobLeaseLostError`, or another.
pub data Fault : Type 0 where
  llm_call_error :
      (provider_code : Option String) (status_code : Option ℕ) (request_id : Option String) → Fault
  llm_output_validation_error : Fault
  supervisor_execution_error : (error_code : Option String) (state : Option RcaState) → Fault
  worker_runtime_configuration_error : Fault
  job_lease_lost_error : Fault
  other_error : Fault

-- An exception with the chain of its causes and contexts, up to the first that occurred before.
pub record Raised : Type 0 where
  pub error : Fault
  pub causes : List Fault

-- `_find_nested_error(error, LLMCallError)`
abbrev pub find_llm_call : List Fault → Option (Option String × Option ℕ × Option String)
find_llm_call [] = none
find_llm_call (Fault.llm_call_error p s r ∷ fs) = some (p, s, r)
find_llm_call (_ ∷ fs) = find_llm_call fs

-- `_find_nested_error(error, LLMOutputValidationError) is not None`
abbrev pub has_invalid_output : List Fault → Bool
has_invalid_output [] = false
has_invalid_output (Fault.llm_output_validation_error ∷ fs) = true
has_invalid_output (_ ∷ fs) = has_invalid_output fs

-- `(llm_error.provider_code or "").casefold() == "arrearage"`
abbrev pub is_arrearage : Option String → Bool
is_arrearage none = false
is_arrearage (some p) = codes_eq (codes "arrearage") (map lower (codes p))

pub data LlmCode : Type 0 where
  llm_billing_error llm_auth_failed llm_rate_limited llm_unavailable llm_provider_error : LlmCode

abbrev pub code_text : LlmCode → String
code_text LlmCode.llm_billing_error = "LLM_BILLING_ERROR"
code_text LlmCode.llm_auth_failed = "LLM_AUTH_FAILED"
code_text LlmCode.llm_rate_limited = "LLM_RATE_LIMITED"
code_text LlmCode.llm_unavailable = "LLM_UNAVAILABLE"
code_text LlmCode.llm_provider_error = "LLM_PROVIDER_ERROR"

abbrev pub code_message : LlmCode → String
code_message LlmCode.llm_billing_error = "The LLM account is not in good standing."
code_message LlmCode.llm_auth_failed = "The LLM provider rejected runtime credentials."
code_message LlmCode.llm_rate_limited = "The LLM provider rate limit was exceeded."
code_message LlmCode.llm_unavailable = "The LLM provider was unavailable or timed out."
code_message LlmCode.llm_provider_error = "The LLM provider rejected the request."

-- The code and the retry flag of a status code.
abbrev pub by_status : Option ℕ → LlmCode × Bool
by_status none = (LlmCode.llm_unavailable, true)
by_status (some s) =
    if s == 401 || s == 403
    then (LlmCode.llm_auth_failed, false)
    else if s == 429
    then (LlmCode.llm_rate_limited, true)
    else if leb 500 s
    then (LlmCode.llm_unavailable, true)
    else (LlmCode.llm_provider_error, false)

-- The code and the retry flag of an `LLMCallError`.
unfoldable pub llm_code : Option String → Option ℕ → LlmCode × Bool
llm_code provider_code status_code =
    if is_arrearage provider_code then (LlmCode.llm_billing_error, false) else by_status status_code

abbrev pub final_error : String → String → Json
final_error code message = object (
    field "error_code" (text code)
      (field "message" (text message) (field "retryable" (bool false) nil)))

-- The payload of an `LLMCallError`.
abbrev pub llm_error : LlmCode × Bool → Option String → Option String → Json
llm_error (code, retryable) provider_code request_id = object (
    field "error_code" (text (code_text code)) (
      field "message" (text (code_message code)) (
        field "retryable" (bool retryable) (
          field "provider_code" (optional_text provider_code)
            (field "provider_request_id" (optional_text request_id) nil)))))

abbrev pub execution_failed : Json
execution_failed = final_error "WORKFLOW_EXECUTION_FAILED" "RCA Workflow execution failed."

-- The payload of an exception without an error of the language model in its chain.
abbrev pub plain_error : Fault → Json
plain_error (Fault.supervisor_execution_error (some code) state) =
    if non_empty code
    then final_error code "The RCA Supervisor rejected the bounded Workflow attempt."
    else execution_failed
plain_error Fault.worker_runtime_configuration_error =
    final_error "WORKER_RUNTIME_CONFIG_MISMATCH"
      "Worker runtime does not match the immutable Job configuration."
plain_error _ = execution_failed

-- The payload of an exception that has no `LLMCallError` in its chain.
unfoldable pub classify_other : Fault → List Fault → Json
classify_other error causes =
    if has_invalid_output (error ∷ causes)
    then final_error "LLM_OUTPUT_INVALID" "Qwen output violated the structured Agent contract."
    else plain_error error

-- The classification, by the `LLMCallError` of the chain.
abbrev pub classified : Raised → Option (Option String × Option ℕ × Option String) → Json × Bool
classified e none = (classify_other e.error e.causes, false)
classified e (some (p, s, r)) = (llm_error (llm_code p s) p r, (llm_code p s).1)

unfoldable pub classify_worker_error : Raised → Json × Bool
classify_worker_error e = classified e (find_llm_call (e.error ∷ e.causes))
