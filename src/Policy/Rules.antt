-- ===== src/Policy/Rules.antt =====
-- `InvestigationPolicy` of core/yield_rca_core/investigation_policy.py, with the registry that
-- `InvestigationPolicy()` has.
use autonomous_qwen_react.Prelude.{
  pos, negsuc, String, Bool, true, false, not, ◌&&◌, List, [], ◌∷◌, ◌++◌, map, filter, any, all,
  ◌==◌, non_empty as is_text, str_eq, get, Option, none, some, Result, ok, raise, if◌then◌else◌,
}
use autonomous_qwen_react.Json.{Json, Items, Fields}
use autonomous_qwen_react.Policy.Kinds.{
  AgentKind, ActionKind, GoalStatus, ConclusionLevel, StopReason, same_agent, same_kind,
}
use autonomous_qwen_react.Policy.Models.{
  PolicyError, InvestigationGoal, InvestigationAction, ActionRecord, ActionStatus, AgentFinding,
}

pub record ActionDefinition : Type 0 where
  pub agent : AgentKind
  pub required_finding_agents : List AgentKind

-- `ACTION_REGISTRY`
abbrev pub action_registry : ActionKind → ActionDefinition
action_registry ActionKind.inspect_defect_pattern = record {
  agent = AgentKind.defect_wat;
  required_finding_agents = [];
}
action_registry ActionKind.validate_shared_defect_pattern = record {
  agent = AgentKind.defect_wat;
  required_finding_agents = AgentKind.mes ∷ AgentKind.defect_wat ∷ [];
}
action_registry ActionKind.find_shared_exposure = record {
  agent = AgentKind.mes;
  required_finding_agents = [];
}
action_registry ActionKind.assess_impact_scope = record {
  agent = AgentKind.mes;
  required_finding_agents = AgentKind.mes ∷ [];
}
action_registry ActionKind.inspect_fdc_spc = record {
  agent = AgentKind.fdc;
  required_finding_agents = AgentKind.mes ∷ [];
}
action_registry ActionKind.inspect_recipe_change = record {
  agent = AgentKind.mes;
  required_finding_agents = AgentKind.mes ∷ [];
}
action_registry ActionKind.validate_historical_case = record {
  agent = AgentKind.knowledge;
  required_finding_agents = AgentKind.mes ∷ AgentKind.fdc ∷ AgentKind.defect_wat ∷ [];
}
action_registry ActionKind.run_rca_reasoning = record {
  agent = AgentKind.rca_reasoning;
  required_finding_agents = AgentKind.mes ∷ AgentKind.fdc ∷ AgentKind.defect_wat ∷ [];
}
action_registry ActionKind.conclude_inconclusive = record {
  agent = AgentKind.rca_reasoning;
  required_finding_agents = [];
}

pub record PolicyDecision : Type 0 where
  pub goal_status : GoalStatus
  pub conclusion_level : ConclusionLevel
  pub next_action : Option InvestigationAction
  pub evidence_gaps : List String
  pub stop_reason : Option StopReason

-- `PolicyDecision.__post_init__`
unfoldable pub check_decision : PolicyDecision → Result PolicyError (Unit {0})
check_decision d = elim d.next_action [
  | none ↦ elim d.stop_reason [ none ↦ raise PolicyError.value_error | some _ ↦ ok tt ]
  | some _ ↦ elim d.stop_reason [ none ↦ ok tt | some _ ↦ raise PolicyError.value_error ]
]

-- Whether an agent is in `_finding_agents(findings)`.
unfoldable pub has_finding : AgentKind → List AgentFinding → Bool
has_finding k fs = any (λ f. same_agent k f.agent) fs

abbrev is_recorded : ActionStatus → Bool
is_recorded ActionStatus.completed = true
is_recorded ActionStatus.skipped = true
is_recorded ActionStatus.failed = true

-- Whether a kind is in `_completed_action_kinds(records)`.
unfoldable pub is_completed : ActionKind → List ActionRecord → Bool
is_completed k rs = any (λ r. is_recorded r.status && same_kind k r.action.kind) rs

-- `bool(value)`
abbrev pub truthy : Json → Bool
truthy Json.null = false
truthy (Json.bool b) = b
truthy (Json.number (pos n)) = not (n == 0)
truthy (Json.number (negsuc n)) = true
truthy (Json.float is_zero repr) = not is_zero
truthy (Json.text s) = is_text s
truthy (Json.instant t) = true
truthy (Json.array Items.end) = false
truthy (Json.array (Items.item x xs)) = true
truthy (Json.object Fields.nil) = false
truthy (Json.object (Fields.field k v fs)) = true

-- `bool(known_facts.get(key))`
unfoldable pub knows : InvestigationGoal → String → Bool
knows g key = elim (get key g.known_facts) [ none ↦ false | some v ↦ truthy v ]

-- `_has_process_context`
unfoldable pub has_process_context : InvestigationGoal → Bool
has_process_context g = all (knows g) ("equipment_id" ∷ "chamber_id" ∷ "operation_no" ∷ [])

-- `list(dict.fromkeys(xs))`, after the keys `seen`.
abbrev pub fresh : List String → List String → List String
fresh seen [] = []
fresh seen (x ∷ xs) =
    let rest = fresh (x ∷ seen) xs in
    let others = fresh seen xs in if any (str_eq x) seen then others else x ∷ rest

abbrev pub from_keys : List String → List String
from_keys xs = fresh [] xs

-- `_gaps`
unfoldable pub gaps : InvestigationGoal → List AgentFinding → List String
gaps g fs = from_keys (g.required_evidence ++ missing)
  where
    standard_gaps : List (AgentKind × String)
    standard_gaps =
        (AgentKind.mes, "shared_exposure")
        ∷ (AgentKind.fdc, "process_mechanism")
        ∷ (AgentKind.defect_wat, "product_outcome")
        ∷ []

    missing : List String
    missing = map (λ e. e.1) (filter (λ e. not (has_finding e.0 fs)) standard_gaps)
