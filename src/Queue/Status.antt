-- ===== src/Queue/Status.antt =====
-- The life cycle of a job: `TaskStatus` of core/yield_rca_core/models.py, and the transition table
-- of backend/yield_rca_api/store.py.
use autonomous_qwen_react.Prelude.{
  String, Bool, true, false, not, List, [], ◌∷◌, Result, ok, raise, if◌then◌else◌,
}

pub data TaskStatus : Type 0 where
  queued pending running retry_wait cancel_requested completed failed cancelled skipped : TaskStatus

-- `TaskStatus.X.value`
abbrev pub value : TaskStatus → String
value queued = "queued"
value pending = "pending"
value running = "running"
value retry_wait = "retry_wait"
value cancel_requested = "cancel_requested"
value completed = "completed"
value failed = "failed"
value cancelled = "cancelled"
value skipped = "skipped"

-- Equality of statuses, as the code compares their texts.
abbrev pub same : TaskStatus → TaskStatus → Bool
same queued queued = true
same pending pending = true
same running running = true
same retry_wait retry_wait = true
same cancel_requested cancel_requested = true
same completed completed = true
same failed failed = true
same cancelled cancelled = true
same skipped skipped = true
same _ _ = false

-- `status in {...}`
abbrev pub is_one_of : TaskStatus → List TaskStatus → Bool
is_one_of s [] = false
is_one_of s (t ∷ ts) = if same s t then true else is_one_of s ts

-- `TERMINAL_JOB_STATUSES`
abbrev pub terminal_job_statuses : List TaskStatus
terminal_job_statuses = completed ∷ failed ∷ cancelled ∷ []

-- `_ALLOWED_TRANSITIONS`
abbrev pub allowed_transitions : TaskStatus → List TaskStatus
allowed_transitions queued = running ∷ cancelled ∷ []
allowed_transitions running = completed ∷ failed ∷ retry_wait ∷ cancel_requested ∷ []
allowed_transitions retry_wait = running ∷ cancelled ∷ []
allowed_transitions cancel_requested = cancelled ∷ []
allowed_transitions pending = queued ∷ running ∷ cancelled ∷ []
allowed_transitions skipped = []
allowed_transitions completed = []
allowed_transitions failed = []
allowed_transitions cancelled = []

-- The exceptions of the store.
pub data Error : Type 0 where
  duplicate_job idempotency_conflict lease_lost not_cancellable value_error key_error : Error
  invalid_transition : TaskStatus → TaskStatus → Error

unfoldable pub validate_job_transition : TaskStatus → TaskStatus → Result Error (Unit {0})
validate_job_transition current next =
    if same current next
    then ok tt
    else if not (is_one_of next (allowed_transitions current))
    then raise (invalid_transition current next)
    else ok tt
