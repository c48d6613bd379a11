-- ===== src/Worker/Transient.antt =====
-- Which exceptions `classify_worker_error` (backend/yield_rca_api/worker.py) retries.
use autonomous_qwen_react.Prelude.{
  ℕ, ◌≤◌, String, Bool, true, false, List, [], ◌∷◌, ◌==◌, Option, none, some, if◌then◌else◌, ◌≡◌,
  ◌↔◌, inl, inr, refl, ok, arith, Bool-cases, sym, ◌∙◌, non_empty,
}
use autonomous_qwen_react.Json.{Json, validate_no_sensitive_fields}
use autonomous_qwen_react.Queue.Records.{check_payload}
use autonomous_qwen_react.Worker.Faults.{
  Fault, Raised, find_llm_call, is_arrearage, by_status, llm_code, classify_other,
  classify_worker_error, classified, final_error, plain_error, execution_failed, has_invalid_output,
}

-- A status code that a later call may not meet again: none at all, too many requests, or the server's.
pub data IsTransientStatus : Option ℕ → Type 0 where
  no_status : IsTransientStatus none
  too_many : (s : ℕ) → s ≡ 429 → IsTransientStatus (some s)
  server : (s : ℕ) → 500 ≤ s → IsTransientStatus (some s)

abbrev pub is_llm_call : Fault → Bool
is_llm_call (Fault.llm_call_error p s r) = true
is_llm_call _ = false

-- The outermost call of the language model in a chain failed for a transient reason.
pub data IsTransient : List Fault → Type 0 where
  transient_call :
      (p : Option String) (s : Option ℕ) (r : Option String) (fs : List Fault)
      → is_arrearage p ≡ false
      → IsTransientStatus s
      → IsTransient (Fault.llm_call_error p s r ∷ fs)
  inner :
      (f : Fault) (fs : List Fault) → is_llm_call f ≡ false → IsTransient fs → IsTransient (f ∷ fs)

-- The retry flag of what the search finds.
abbrev retry_flag : Option (Option String × Option ℕ × Option String) → Bool
retry_flag none = false
retry_flag (some (p, s, r)) = (llm_code p s).1

by_status-IsTransientStatus : (s : Option ℕ) → (by_status s).1 ≡ true → IsTransientStatus s
by_status-IsTransientStatus none h = no_status
by_status-IsTransientStatus (some s) h = elim (Bool-cases (s == 429)) [
  | inl e ↦ too_many s (ground (arith, e))
  | inr e ↦ server s (ground (arith, e, h))
]

IsTransientStatus-by_status : (s : Option ℕ) → IsTransientStatus s → (by_status s).1 ≡ true
IsTransientStatus-by_status none no_status = refl
IsTransientStatus-by_status (some s) (too_many _ e) = ground (arith, e)
IsTransientStatus-by_status (some s) (server _ l) = ground (arith, l)

retry_flag-IsTransient : (fs : List Fault) → retry_flag (find_llm_call fs) ≡ true → IsTransient fs
unfolding llm_code
retry_flag-IsTransient [] h = cc
retry_flag-IsTransient (Fault.llm_call_error p s r ∷ fs) h = elim (Bool-cases (is_arrearage p)) [
  | inl a ↦ absurd (ground (arith, a, h))
  | inr a ↦
      transient_call p s r fs a (by_status-IsTransientStatus s (rw (a, retry_flag, llm_code) at h))
]
retry_flag-IsTransient (Fault.llm_output_validation_error ∷ fs) h =
    inner Fault.llm_output_validation_error fs refl (retry_flag-IsTransient fs h)
retry_flag-IsTransient (Fault.supervisor_execution_error c st ∷ fs) h =
    inner (Fault.supervisor_execution_error c st) fs refl (retry_flag-IsTransient fs h)
retry_flag-IsTransient (Fault.worker_runtime_configuration_error ∷ fs) h =
    inner Fault.worker_runtime_configuration_error fs refl (retry_flag-IsTransient fs h)
retry_flag-IsTransient (Fault.job_lease_lost_error ∷ fs) h =
    inner Fault.job_lease_lost_error fs refl (retry_flag-IsTransient fs h)
retry_flag-IsTransient (Fault.other_error ∷ fs) h =
    inner Fault.other_error fs refl (retry_flag-IsTransient fs h)

IsTransient-retry_flag : (fs : List Fault) → IsTransient fs → retry_flag (find_llm_call fs) ≡ true
unfolding llm_code
IsTransient-retry_flag _ (transient_call p s r fs a t) =
    rw (a, retry_flag, llm_code) (IsTransientStatus-by_status s t)
IsTransient-retry_flag _ (inner (Fault.llm_call_error p s r) fs n t) = cc
IsTransient-retry_flag _ (inner Fault.llm_output_validation_error fs n t) =
    IsTransient-retry_flag fs t
IsTransient-retry_flag _ (inner (Fault.supervisor_execution_error c st) fs n t) =
    IsTransient-retry_flag fs t
IsTransient-retry_flag _ (inner Fault.worker_runtime_configuration_error fs n t) =
    IsTransient-retry_flag fs t
IsTransient-retry_flag _ (inner Fault.job_lease_lost_error fs n t) = IsTransient-retry_flag fs t
IsTransient-retry_flag _ (inner Fault.other_error fs n t) = IsTransient-retry_flag fs t

flag-classified :
    (e : Raised) (o : Option (Option String × Option ℕ × Option String))
    → (classified e o).1 ≡ retry_flag o
flag-classified e none = refl
flag-classified e (some (p, s, r)) = refl

final_error-clean : (c m : String) → check_payload (some (final_error c m)) ≡ ok tt
unfolding check_payload validate_no_sensitive_fields
final_error-clean c m = refl

if-clean :
    (b : Bool) (x y : Json)
    → check_payload (some x) ≡ ok tt
    → check_payload (some y) ≡ ok tt
    → check_payload (some (if b then x else y)) ≡ ok tt
if-clean true x y h k = h
if-clean false x y h k = k

plain-clean : (e : Fault) → check_payload (some (plain_error e)) ≡ ok tt
unfolding check_payload validate_no_sensitive_fields
plain-clean (Fault.supervisor_execution_error (some code) st) =
    if-clean (non_empty code)
      (final_error code "The RCA Supervisor rejected the bounded Workflow attempt.")
      execution_failed refl refl
plain-clean (Fault.supervisor_execution_error none st) = refl
plain-clean (Fault.llm_call_error p s r) = refl
plain-clean Fault.llm_output_validation_error = refl
plain-clean Fault.worker_runtime_configuration_error = refl
plain-clean Fault.job_lease_lost_error = refl
plain-clean Fault.other_error = refl

other-clean : (e : Fault) (fs : List Fault) → check_payload (some (classify_other e fs)) ≡ ok tt
unfolding classify_other
other-clean e fs =
    if-clean (has_invalid_output (e ∷ fs)) _ (plain_error e)
      (final_error-clean "LLM_OUTPUT_INVALID" "Qwen output violated the structured Agent contract.")
      (plain-clean e)

classified-clean :
    (e : Raised) (o : Option (Option String × Option ℕ × Option String))
    → check_payload (some (classified e o).0) ≡ ok tt
unfolding check_payload validate_no_sensitive_fields
classified-clean e none = other-clean e.error e.causes
classified-clean e (some (none, s, none)) = refl
classified-clean e (some (none, s, some r)) = refl
classified-clean e (some (some p, s, none)) = refl
classified-clean e (some (some p, s, some r)) = refl

-- The error payload of any exception passes the check on sensitive fields.
pub classify-clean : (e : Raised) → check_payload (some (classify_worker_error e).0) ≡ ok tt
unfolding classify_worker_error
classify-clean e = classified-clean e (find_llm_call (e.error ∷ e.causes))

-- An exception is retried exactly when the outermost call of the language model in its chain
-- failed, not for want of payment, without a status code, with 429, or with a code from 500 on; and
-- the payload of every exception may be stored: it holds no sensitive field.
pub classify_worker_error-IsTransient :
    (e : Raised)
    → (((classify_worker_error e).1 ≡ true) ↔ IsTransient (e.error ∷ e.causes))
      × (check_payload (some (classify_worker_error e).0) ≡ ok tt)
unfolding classify_worker_error
classify_worker_error-IsTransient e = (
  (
    λ h.
        retry_flag-IsTransient (e.error ∷ e.causes)
          (sym (flag-classified e (find_llm_call (e.error ∷ e.causes))) ∙ h),
    λ t.
        flag-classified e (find_llm_call (e.error ∷ e.causes))
        ∙ IsTransient-retry_flag (e.error ∷ e.causes) t,
  ),
  classify-clean e,
)
