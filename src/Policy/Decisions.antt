-- ===== src/Policy/Decisions.antt =====
-- `InvestigationPolicy.next_action` of core/yield_rca_core/investigation_policy.py.
use autonomous_qwen_react.Prelude.{
  ℕ, joined, String, Bool, false, not, ◌&&◌, ◌||◌, List, [], ◌∷◌, any, find, length, leb, str_eq, ℤ,
  at_most_zero, none, some, Result, ok, raise, ◌>>◌, if◌then◌else◌,
}
use autonomous_qwen_react.Policy.Kinds.{
  AgentKind, ActionKind, InvestigationIntent, GoalStatus, ConclusionLevel, StopReason, same_agent,
  agent_value, kind_value, conclusion_level,
}
use autonomous_qwen_react.Policy.Models.{
  PolicyError, InvestigationGoal, InvestigationAction, ActionRecord, AgentFinding, check_action,
}
use autonomous_qwen_react.Policy.Rules.{
  action_registry, PolicyDecision, check_decision, has_finding, is_completed, knows,
  has_process_context, from_keys, gaps,
}

-- `_action`
unfoldable pub action : InvestigationGoal → ActionKind → String → InvestigationAction
action g kind reason = record {
  action_id = joined g.goal_id (joined ":" (kind_value kind));
  kind = kind;
  agent = agent_value (action_registry kind).agent;
  reason = reason;
  inputs = g.known_facts;
  scope = [];
  required_evidence_ids = [];
  max_attempts = 1;
}

-- `PolicyDecision(...)`
unfoldable pub decision : PolicyDecision → Result PolicyError PolicyDecision
decision d = do check_decision d; ok d

-- `_stop`
unfoldable pub stop :
    GoalStatus → ConclusionLevel → StopReason → List String → Result PolicyError PolicyDecision
stop status level reason missing = decision (record {
  goal_status = status;
  conclusion_level = level;
  next_action = none;
  evidence_gaps = missing;
  stop_reason = some reason;
})

-- `_next`
unfoldable pub next :
    InvestigationGoal
    → List ActionRecord
    → ActionKind
    → String
    → List String
    → Result PolicyError PolicyDecision
next g rs kind reason missing =
    if is_completed kind rs
    then stop GoalStatus.blocked ConclusionLevel.inconclusive StopReason.no_allowed_action missing
    else do
      check_action (action g kind reason)
      decision (record {
        goal_status = GoalStatus.in_progress;
        conclusion_level = ConclusionLevel.signal;
        next_action = some (action g kind reason);
        evidence_gaps = missing;
        stop_reason = none;
      })

-- The first defect finding with an `evidence_scope`.
abbrev in_scope : String → AgentFinding → Bool
in_scope scope f =
    same_agent AgentKind.defect_wat f.agent
    && elim f.details.evidence_scope [ none ↦ false | some s ↦ str_eq s scope ]

abbrev is_positive : List (String × ℤ) → String → Bool
is_positive counts p = any (λ e. str_eq e.0 p && not (at_most_zero e.1)) counts

-- `_shared_defect_pattern_matches`: a pattern that both findings count.
unfoldable pub shared_defect_pattern_matches : List AgentFinding → Bool
shared_defect_pattern_matches fs = elim (find (in_scope "selected_lots") fs) [
  | none ↦ false
  | some source ↦ elim (find (in_scope "shared_exposure_comparison") fs) [
    | none ↦ false
    | some comparison ↦
        any (λ e. not (at_most_zero e.1) && is_positive comparison.details.defect_patterns e.0)
          source.details.defect_patterns
  ]
]

-- `str(rca.details.get("status", "inconclusive"))`
abbrev pub rca_status : AgentFinding → String
rca_status f = elim f.details.status [ none ↦ "inconclusive" | some s ↦ s ]

-- The end of `_root_cause_next`, with the first RCA finding.
unfoldable pub conclude : List String → AgentFinding → Result PolicyError PolicyDecision
conclude missing rca =
    if not (str_eq (rca_status rca) "supported")
    then elim (conclusion_level (rca_status rca)) [
      | none ↦ raise PolicyError.value_error
      | some level ↦ stop GoalStatus.satisfied level StopReason.goal_satisfied missing
    ]
    else stop GoalStatus.satisfied ConclusionLevel.supported StopReason.goal_satisfied []

-- `_root_cause_next`
unfoldable pub root_cause_next :
    InvestigationGoal
    → List AgentFinding
    → List ActionRecord
    → List String
    → Result PolicyError PolicyDecision
root_cause_next g fs rs missing =
    if not (has_finding AgentKind.mes fs) && not (knows g "lot_id")
    then next g rs ActionKind.find_shared_exposure
        "A product-window RCA needs MES scope before a Lot-specific defect inspection." missing
    else if not (has_finding AgentKind.defect_wat fs)
    then next g rs ActionKind.inspect_defect_pattern
        "Root-cause assessment requires an observed product-outcome pattern." missing
    else if not (has_finding AgentKind.mes fs)
    then next g rs ActionKind.find_shared_exposure
        "The observed outcome needs shared equipment, chamber, recipe, and timing context." missing
    else if not (is_completed ActionKind.validate_shared_defect_pattern rs)
    then next g rs ActionKind.validate_shared_defect_pattern
        "Shared-exposure Lots require a second defect-pattern comparison before FDC RCA." missing
    else if not (has_finding AgentKind.fdc fs)
    then next g rs ActionKind.inspect_fdc_spc
        "The shared exposure needs FDC/SPC process-mechanism evidence." missing
    else if not (has_finding AgentKind.rca_reasoning fs)
    then next g rs ActionKind.run_rca_reasoning
        "Scope, mechanism, and product-outcome findings are available for RCA gating." missing
    else if not (shared_defect_pattern_matches fs)
    then stop GoalStatus.satisfied ConclusionLevel.candidate StopReason.goal_satisfied
        ("matching_shared_defect_pattern" ∷ [])
    else elim (find (λ f. same_agent AgentKind.rca_reasoning f.agent) fs) [
      | none ↦ raise PolicyError.stop_iteration
      | some rca ↦ conclude missing rca
    ]

-- The branch of `next_action` for an `impact_scope` goal.
unfoldable pub impact_scope_next :
    InvestigationGoal
    → List AgentFinding
    → List ActionRecord
    → List String
    → Result PolicyError PolicyDecision
impact_scope_next g fs rs missing =
    if not (has_finding AgentKind.mes fs)
    then next g rs ActionKind.find_shared_exposure
        "Impact scope requires shared process exposure before selecting affected lots." missing
    else stop GoalStatus.satisfied ConclusionLevel.signal StopReason.goal_satisfied []

-- The branch of `next_action` for an `spc_check` goal.
unfoldable pub spc_check_next :
    InvestigationGoal
    → List AgentFinding
    → List ActionRecord
    → List String
    → Result PolicyError PolicyDecision
spc_check_next g fs rs missing =
    if not (has_finding AgentKind.mes fs) && not (has_process_context g)
    then next g rs ActionKind.find_shared_exposure
        "SPC analysis needs equipment, chamber, operation, and exposure-window context." missing
    else if not (has_finding AgentKind.fdc fs)
    then next g rs ActionKind.inspect_fdc_spc
        "The process context is available; inspect FDC, OOC, and SPC evidence." missing
    else stop GoalStatus.satisfied ConclusionLevel.signal StopReason.goal_satisfied []

-- The branch of `next_action` for a `historical_lookup` goal.
unfoldable pub historical_lookup_next :
    InvestigationGoal
    → List AgentFinding
    → List ActionRecord
    → List String
    → Result PolicyError PolicyDecision
historical_lookup_next g fs rs missing =
    if not (
      has_finding AgentKind.mes fs
      && has_finding AgentKind.fdc fs
      && has_finding AgentKind.defect_wat fs)
    then root_cause_next g fs rs missing
    else if not (has_finding AgentKind.knowledge fs)
    then next g rs ActionKind.validate_historical_case
        "Historical retrieval requires current MES, FDC, and defect context for validation." missing
    else stop GoalStatus.satisfied ConclusionLevel.candidate StopReason.goal_satisfied []

-- What `next_action` decides within the budget and without contradictions.
unfoldable pub by_intent :
    InvestigationGoal
    → InvestigationIntent
    → List AgentFinding
    → List ActionRecord
    → List String
    → Result PolicyError PolicyDecision
by_intent g InvestigationIntent.impact_scope fs rs missing = impact_scope_next g fs rs missing
by_intent g InvestigationIntent.spc_check fs rs missing = spc_check_next g fs rs missing
by_intent g InvestigationIntent.historical_lookup fs rs missing =
    historical_lookup_next g fs rs missing
by_intent g InvestigationIntent.root_cause fs rs missing = root_cause_next g fs rs missing
by_intent g InvestigationIntent.full_rca fs rs missing = root_cause_next g fs rs missing

-- `next_action`
unfoldable pub next_action :
    InvestigationGoal
    → List AgentFinding
    → List ActionRecord
    → ℕ
    → List String
    → Result PolicyError PolicyDecision
next_action g fs rs tool_call_count critical_contradictions =
    if leb g.max_steps (length rs) || leb g.max_tool_calls tool_call_count
    then stop GoalStatus.budget_exhausted ConclusionLevel.inconclusive StopReason.budget_exhausted
        (gaps g fs)
    else elim critical_contradictions [
      | [] ↦ by_intent g g.intent fs rs (gaps g fs)
      | c ∷ cs ↦
          stop GoalStatus.blocked ConclusionLevel.conflicted StopReason.critical_contradiction
            (from_keys (c ∷ cs))
    ]
