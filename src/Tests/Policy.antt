-- ===== src/Tests/Policy.antt =====
-- The policy (core/yield_rca_core/investigation_policy.py) on a lot with a known defect, and its
-- theorem at it.
use autonomous_qwen_react.Prelude.{
  ℕ, ap, raise, arith, ok-injective, ◌≤◌, true, sym, some_inj, String, ◌≡◌, ◌⊎◌, refl, List, [],
  ◌∷◌, Option, none, some, ok, Result, get, pos,
}
use autonomous_qwen_react.Json.{text}
use autonomous_qwen_react.Policy.Kinds.{
  AgentKind, ActionKind, InvestigationIntent, ConclusionLevel, conclusion_level,
}
use autonomous_qwen_react.Policy.Models.{
  InvestigationAction, InvestigationGoal, ActionRecord, ActionStatus, AgentFinding, check_goal,
  check_action, non_empty, string_list, json_object,
}
use autonomous_qwen_react.Policy.Rules.{
  has_process_context, knows, PolicyDecision, check_decision, has_finding, is_completed, knows,
  gaps,
}
use autonomous_qwen_react.Policy.Decisions.{
  action, decision, stop, next, root_cause_next, by_intent, next_action,
}
use autonomous_qwen_react.Policy.Dispatch.{SupervisorError, inspect_fdc_spc_scope, spc_check-raises}
use autonomous_qwen_react.Policy.Loop.{
  Progress, LoopError, controlled_action_tool_cost, execute_controlled,
}
use autonomous_qwen_react.Policy.Budget.{Within, execute_controlled-Within}
use autonomous_qwen_react.Policy.Sound.{Sound}
use autonomous_qwen_react.Policy.Choice.{HasLevel, IsOpen, next_action-Sound}

abbrev goal : InvestigationGoal
goal = record {
  goal_id = "GOAL_1";
  intent = InvestigationIntent.root_cause;
  summary = "Find the root cause of the scratches.";
  known_facts = ("lot_id", text "LOT_7") ∷ [];
  required_evidence = [];
  max_steps = 8;
  max_tool_calls = 20;
}

abbrev finding : String → AgentKind → Option String → Option String → AgentFinding
finding name agent status scope = record {
  finding_id = name;
  agent = agent;
  summary = "seen";
  evidence_ids = [];
  details = record {
    status = status;
    evidence_scope = scope;
    defect_patterns = ("scratch", pos 3) ∷ [];
  };
}

abbrev findings : List AgentFinding
findings =
    finding "F1" AgentKind.defect_wat none (some "selected_lots")
    ∷ finding "F2" AgentKind.mes none none
    ∷ finding "F3" AgentKind.defect_wat none (some "shared_exposure_comparison")
    ∷ finding "F4" AgentKind.fdc none none
    ∷ finding "F5" AgentKind.rca_reasoning (some "supported") none
    ∷ []

abbrev recorded : ActionKind → ActionRecord
recorded k = record {
  action = action goal k "because";
  status = ActionStatus.completed;
  produced_finding_ids = [];
  produced_evidence_ids = [];
  decision_summary = "done";
}

abbrev records : List ActionRecord
records =
    recorded ActionKind.inspect_defect_pattern
    ∷ recorded ActionKind.find_shared_exposure
    ∷ recorded ActionKind.validate_shared_defect_pattern
    ∷ recorded ActionKind.inspect_fdc_spc
    ∷ recorded ActionKind.run_rca_reasoning
    ∷ []

abbrev returned : {E : Type 0} {A : Type 0} → Result E A → Option A
returned (ok a) = some a
returned (Result.raise e) = none

abbrev kind_of : Option PolicyDecision → Option ActionKind
kind_of none = none
kind_of (some d) = elim d.next_action [ none ↦ none | some a ↦ some a.kind ]

-- Without findings the defect pattern is inspected first.
first_action :
    kind_of (returned (next_action goal [] [] 0 [])) ≡ some ActionKind.inspect_defect_pattern
unfolding next_action by_intent root_cause_next next stop decision check_decision action has_finding
    is_completed knows get gaps check_action non_empty string_list json_object
first_action = refl

findings-HasLevel : HasLevel findings
unfolding conclusion_level
findings-HasLevel f e = rw (sym (some_inj e)) (ConclusionLevel.supported, refl)

goal_checked : check_goal goal ≡ ok tt
unfolding check_goal non_empty string_list json_object
goal_checked = refl

next_action-Sound_example :
    (d : PolicyDecision) × (next_action goal findings records 9 [] ≡ ok d)
    × Sound goal findings records d
    × ((d.next_action ≡ none) ⊎ IsOpen goal records 9 [])
next_action-Sound_example =
    next_action-Sound goal findings records 9 [] goal_checked findings-HasLevel

abbrev spc_goal : InvestigationGoal
spc_goal = record goal {
  intent = InvestigationIntent.spc_check;
  known_facts =
      ("equipment_id", text "EQ_1")
      ∷ ("chamber_id", text "C2")
      ∷ ("operation_no", text "OP_5")
      ∷ [];
}

spc_check-raises_example :
    (d : PolicyDecision) × (a : InvestigationAction) × (next_action spc_goal [] [] 0 [] ≡ ok d)
    × (d.next_action ≡ some a)
    × (a.kind ≡ ActionKind.inspect_fdc_spc)
    × (inspect_fdc_spc_scope [] ≡ raise (SupervisorError.no_selected_finding AgentKind.mes))
unfolding check_goal non_empty string_list json_object has_process_context knows get has_finding
    is_completed
spc_check-raises_example =
    spc_check-raises spc_goal [] [] 0 refl refl refl refl refl refl (omega arith) (omega arith)

abbrev impact_goal : InvestigationGoal
impact_goal = record goal { intent = InvestigationIntent.impact_scope }

-- Specialists that answer every action with an MES finding, at its full cost.
abbrev dispatch : InvestigationAction → Progress → Result LoopError (AgentFinding × ℕ)
dispatch a p =
    ok (finding "F1" AgentKind.mes none none, controlled_action_tool_cost true (some "LOT_7") a p)

dispatch-bounded :
    (a : InvestigationAction) (p : Progress) (f : AgentFinding) (n : ℕ)
    → dispatch a p ≡ ok (f, n)
    → n ≤ controlled_action_tool_cost true (some "LOT_7") a p
dispatch-bounded a p f n e = omega (arith, ap (λ x. x.1) (ok-injective e))

execute_controlled-Within_example :
    Within impact_goal (execute_controlled true (some "LOT_7") dispatch impact_goal)
execute_controlled-Within_example =
    execute_controlled-Within true (some "LOT_7") dispatch impact_goal dispatch-bounded
