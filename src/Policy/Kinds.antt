-- ===== src/Policy/Kinds.antt =====
-- The enumerations of core/yield_rca_core/investigation_models.py, and `AgentKind` of
-- core/yield_rca_core/evidence_models.py.
use autonomous_qwen_react.Prelude.{
  String, Bool, true, false, Option, none, some, str_eq, if◌then◌else◌,
}

pub data AgentKind : Type 0 where
  planner supervisor mes fdc defect_wat knowledge rca_reasoning improvement report : AgentKind

pub data ActionKind : Type 0 where
  inspect_defect_pattern validate_shared_defect_pattern find_shared_exposure : ActionKind
  assess_impact_scope inspect_fdc_spc inspect_recipe_change validate_historical_case : ActionKind
  run_rca_reasoning conclude_inconclusive : ActionKind

pub data InvestigationIntent : Type 0 where
  impact_scope spc_check root_cause historical_lookup full_rca : InvestigationIntent

pub data GoalStatus : Type 0 where
  in_progress satisfied blocked budget_exhausted : GoalStatus

pub data ConclusionLevel : Type 0 where
  signal candidate supported conflicted inconclusive : ConclusionLevel

pub data StopReason : Type 0 where
  goal_satisfied critical_contradiction no_allowed_action budget_exhausted data_unavailable :
      StopReason

-- Equality of the kinds, as the code compares their texts.
abbrev pub same_agent : AgentKind → AgentKind → Bool
same_agent planner planner = true
same_agent supervisor supervisor = true
same_agent mes mes = true
same_agent fdc fdc = true
same_agent defect_wat defect_wat = true
same_agent knowledge knowledge = true
same_agent rca_reasoning rca_reasoning = true
same_agent improvement improvement = true
same_agent report report = true
same_agent _ _ = false

abbrev pub same_kind : ActionKind → ActionKind → Bool
same_kind inspect_defect_pattern inspect_defect_pattern = true
same_kind validate_shared_defect_pattern validate_shared_defect_pattern = true
same_kind find_shared_exposure find_shared_exposure = true
same_kind assess_impact_scope assess_impact_scope = true
same_kind inspect_fdc_spc inspect_fdc_spc = true
same_kind inspect_recipe_change inspect_recipe_change = true
same_kind validate_historical_case validate_historical_case = true
same_kind run_rca_reasoning run_rca_reasoning = true
same_kind conclude_inconclusive conclude_inconclusive = true
same_kind _ _ = false

-- `ActionKind.X.value`
abbrev pub kind_value : ActionKind → String
kind_value inspect_defect_pattern = "inspect_defect_pattern"
kind_value validate_shared_defect_pattern = "validate_shared_defect_pattern"
kind_value find_shared_exposure = "find_shared_exposure"
kind_value assess_impact_scope = "assess_impact_scope"
kind_value inspect_fdc_spc = "inspect_fdc_spc"
kind_value inspect_recipe_change = "inspect_recipe_change"
kind_value validate_historical_case = "validate_historical_case"
kind_value run_rca_reasoning = "run_rca_reasoning"
kind_value conclude_inconclusive = "conclude_inconclusive"

abbrev pub agent_value : AgentKind → String
agent_value planner = "planner"
agent_value supervisor = "supervisor"
agent_value mes = "mes"
agent_value fdc = "fdc"
agent_value defect_wat = "defect_wat"
agent_value knowledge = "knowledge"
agent_value rca_reasoning = "rca_reasoning"
agent_value improvement = "improvement"
agent_value report = "report"

-- `ConclusionLevel(text)`; `none` is its `ValueError`.
unfoldable pub conclusion_level : String → Option ConclusionLevel
conclusion_level t =
    if str_eq t "signal"
    then some signal
    else if str_eq t "candidate"
    then some candidate
    else if str_eq t "supported"
    then some supported
    else if str_eq t "conflicted"
    then some conflicted
    else if str_eq t "inconclusive"
    then some inconclusive
    else none
