-- ===== src/Worker/Modes.antt =====
-- The orchestration mode, the check of the runtime and `_run_workflow` of
-- backend/yield_rca_api/worker.py. `run` stands for `workflow.run`, and `str_of` for `str`.
use autonomous_qwen_react.Prelude.{
  pos, ℕ, String, Bool, true, false, not, ◌||◌, List, [], ◌∷◌, any, map, codes, lower, starts_with,
  non_empty, str_eq, joined, Option, none, some, Result, ok, raise, ◌>>=◌, ◌>>◌, raise_if,
  if◌then◌else◌,
}
use autonomous_qwen_react.Json.{Json, Fields, null, text, number, object, field, nil}
use autonomous_qwen_react.Queue.Records.{RcaState, QueueRecord}
use autonomous_qwen_react.Worker.Faults.{Fault, Raised}

-- `term in text`, on code points.
abbrev pub occurs_in : List ℕ → List ℕ → Bool
occurs_in term [] = starts_with term []
occurs_in term (c ∷ cs) = starts_with term (c ∷ cs) || occurs_in term cs

-- Whether a query names a defect; `lower()` is that of ASCII, which no term goes beyond.
unfoldable pub names_defect : String → Bool
names_defect user_query =
    any (λ term. occurs_in (codes term) (map lower (codes user_query)))
      ("scratch" ∷ "缺陷" ∷ "划伤" ∷ "刮伤" ∷ [])

-- `not lot_id`
abbrev pub has_no_lot : Option String → Bool
has_no_lot none = true
has_no_lot (some l) = not (non_empty l)

-- The branches of `_select_orchestration_mode`, by whether the workflow's mode is `llm_react` or
-- `controlled_react`, whether a lot is missing, and whether the query names a defect.
abbrev pub selected : Bool → Bool → Bool → Bool → String × Option String
selected true _ _ _ = ("llm_react", none)
selected false false _ _ = ("fixed", none)
selected false true true _ = ("fixed", some "controlled_react_requires_lot_investigation")
selected false true false false = ("fixed", some "controlled_react_requires_explicit_defect_clue")
selected false true false true = ("controlled_react", none)

-- `_select_orchestration_mode`: the mode, and the reason for a fallback.
unfoldable pub select_orchestration_mode :
    String → String → Option String → String → String × Option String
select_orchestration_mode orchestration_mode investigation_mode lot_id user_query =
    selected (str_eq orchestration_mode "llm_react") (str_eq orchestration_mode "controlled_react")
      (not (str_eq investigation_mode "lot") || has_no_lot lot_id) (names_defect user_query)

-- What the worker knows of its runtime.
pub record Runtime : Type 0 where
  pub agent_mode : String
  pub provider : String
  pub model : String
  pub orchestration_mode : String
  pub dataset : String

-- `data.get(key)`
abbrev pub entry : String → Fields → Option Json
entry key nil = none
entry key (field k v fs) = if str_eq k key then some v else entry key fs

abbrev pub entries : Json → Fields
entries (object fs) = fs
entries _ = nil

abbrev pub is_text : Option Json → String → Bool
is_text (some (text s)) t = str_eq s t
is_text _ t = false

-- `actual`
abbrev pub actual : Runtime → List (String × String)
actual w =
    ("agent_mode", w.agent_mode)
    ∷ ("provider", w.provider)
    ∷ ("model", w.model)
    ∷ ("orchestration_mode", w.orchestration_mode)
    ∷ ("dataset", w.dataset)
    ∷ []

-- Whether an entry of `expected` is not that of the runtime: whether there are `mismatches`.
unfoldable pub has_mismatch : Runtime → Fields → Bool
has_mismatch w expected = any (λ e. not (is_text (entry e.0 expected) e.1)) (actual w)

-- `_validate_runtime_config`; what is no dictionary has no `get`.
unfoldable pub validate_runtime_config : Runtime → QueueRecord → Result Raised (Unit {0})
validate_runtime_config w r = elim r.runtime_config [
  | object expected ↦
      raise_if (has_mismatch w expected)
        (record { error = Fault.worker_runtime_configuration_error; causes = [] })
  | _ ↦ raise (record { error = Fault.other_error; causes = [] })
]

-- `{**data, key: value}`
abbrev pub with_entry : String → Json → Fields → Fields
with_entry key value nil = field key value nil
with_entry key value (field k v fs) =
    let rest = with_entry key value fs in if str_eq k key then field k value fs else field k v rest

module _ (str_of : Json → String) where
  -- `str(lot_id) if lot_id is not None else None`
  abbrev pub lot_of : Option Json → Option String
  lot_of none = none
  lot_of (some null) = none
  lot_of (some j) = some (str_of j)

  abbrev pub str_or : Option Json → String → String
  str_or none default = default
  str_or (some j) default = str_of j

-- `request[key]`
abbrev pub required_entry : Option Json → Result Raised Json
required_entry none = raise (record { error = Fault.other_error; causes = [] })
required_entry (some j) = ok j

-- The entry of the fallback, which is made only where the controlled mode was asked for.
abbrev pub with_fallback : String → Option String → Fields → Fields
with_fallback mode none fs = fs
with_fallback mode (some reason) fs =
    if str_eq mode "controlled_react"
    then with_entry "orchestration_fallback_reason" (text reason) fs
    else fs

module _ (str_of : Json → String) (worker_id : String) (w : Runtime)
    (run : (user_query job_id plan_id : String) (lot_id : Option String) (mode : String)
      → Result Raised RcaState) where
  -- The state with the worker's entries in `execution_metadata`.
  unfoldable pub annotated : QueueRecord → Option String → RcaState → RcaState
  annotated r reason st = record st {
    execution_metadata = object (
        with_fallback w.orchestration_mode reason (
          with_entry "queue_worker_id" (text worker_id) (
            with_entry "queue_attempt_number" (number (pos r.attempt_count)) (
              with_entry "orchestration_requested_mode" (text w.orchestration_mode)
                (entries st.execution_metadata)))));
  }

  -- `_run_workflow` once the runtime was checked, on the query of the request.
  unfoldable pub run_selected : QueueRecord → String → Result Raised RcaState
  run_selected r user_query =
      let lot_id = lot_of str_of (entry "lot_id" (entries r.request)) in
      let (mode, reason) =
        select_orchestration_mode w.orchestration_mode
          (str_or str_of (entry "investigation_mode" (entries r.request)) "product_window") lot_id
          user_query in
      run user_query r.state.job.job_id (joined "PLAN_" r.state.job.job_id) lot_id mode >>= λ st.
      ok (annotated r reason st)

  -- `_run_workflow`
  unfoldable pub run_workflow : QueueRecord → Result Raised RcaState
  run_workflow r = do
    validate_runtime_config w r
    user_query ← required_entry (entry "user_query" (entries r.request))
    run_selected r (str_of user_query)
