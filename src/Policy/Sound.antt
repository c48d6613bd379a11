-- ===== src/Policy/Sound.antt =====
-- Sound decisions of the policy (core/yield_rca_core/investigation_policy.py), for the branches that
-- its methods share.
use autonomous_qwen_react.Prelude.{
  joined, String, Bool, true, false, List, all, find, none, some, Result, ok, ◌≡◌, ◌⊎◌, inl, inr,
  refl, arith, Bool-cases, if◌then◌else◌,
}
use autonomous_qwen_react.Policy.Kinds.{
  AgentKind, ActionKind, InvestigationIntent, GoalStatus, ConclusionLevel, StopReason, same_agent,
  agent_value, kind_value,
}
use autonomous_qwen_react.Policy.Models.{
  PolicyError, InvestigationGoal, ActionRecord, AgentFinding, check_action, is_filled,
  is_filled-joined, non_empty, string_list, json_object,
}
use autonomous_qwen_react.Policy.Rules.{
  action_registry, PolicyDecision, check_decision, has_finding, is_completed, has_process_context,
}
use autonomous_qwen_react.Policy.Decisions.{
  action, decision, stop, next, shared_defect_pattern_matches, rca_status,
}

-- An action that passes the checks of its record, whatever the goal's identifier is.
pub action-checked :
    (g : InvestigationGoal) (k : ActionKind) (reason : String)
    → json_object g.known_facts ≡ ok tt
    → is_filled reason ≡ true
    → check_action (action g k reason) ≡ ok tt
unfolding check_action action non_empty string_list json_object
action-checked g k reason h f =
    rw (is_filled-joined g.goal_id (joined ":" (kind_value k)) refl, f, h, agent_filled k) refl
  where
    agent_filled : (k : ActionKind) → is_filled (agent_value (action_registry k).agent) ≡ true
    agent_filled ActionKind.inspect_defect_pattern = refl
    agent_filled ActionKind.validate_shared_defect_pattern = refl
    agent_filled ActionKind.find_shared_exposure = refl
    agent_filled ActionKind.assess_impact_scope = refl
    agent_filled ActionKind.inspect_fdc_spc = refl
    agent_filled ActionKind.inspect_recipe_change = refl
    agent_filled ActionKind.validate_historical_case = refl
    agent_filled ActionKind.run_rca_reasoning = refl
    agent_filled ActionKind.conclude_inconclusive = refl

-- The evidence behind a supported conclusion.
pub record IsSupported (fs : List AgentFinding) (rs : List ActionRecord) : Type 0 where
  pub scoped : has_finding AgentKind.mes fs ≡ true
  pub mechanism : has_finding AgentKind.fdc fs ≡ true
  pub outcome : has_finding AgentKind.defect_wat fs ≡ true
  pub compared : is_completed ActionKind.validate_shared_defect_pattern rs ≡ true
  pub matching : shared_defect_pattern_matches fs ≡ true
  pub reasoned :
      (f : AgentFinding) × (find (λ x. same_agent AgentKind.rca_reasoning x.agent) fs ≡ some f)
      × (rca_status f ≡ "supported")

-- The findings that the registry asks for are there; an SPC check with a process context inspects
-- FDC and SPC without them.
abbrev pub IsReady : InvestigationGoal → List AgentFinding → ActionKind → Type 0
IsReady g fs k =
    (all (λ a. has_finding a fs) (action_registry k).required_finding_agents ≡ true)
    ⊎ ((g.intent ≡ InvestigationIntent.spc_check)
        × (k ≡ ActionKind.inspect_fdc_spc)
        × (has_process_context g ≡ true))

-- A sound decision: either it stops, and only with its evidence on a supported conclusion, or it
-- asks for one action of the registry, which was not recorded before and is ready.
pub data Sound (g : InvestigationGoal) (fs : List AgentFinding) (rs : List ActionRecord)
    : PolicyDecision → Type 0 where
  stops :
      (d : PolicyDecision) (why : StopReason)
      → d.next_action ≡ none
      → d.stop_reason ≡ some why
      → (d.conclusion_level ≡ ConclusionLevel.supported → IsSupported fs rs)
      → Sound g fs rs d
  acts :
      (d : PolicyDecision) (k : ActionKind) (reason : String)
      → d.next_action ≡ some (action g k reason)
      → d.stop_reason ≡ none
      → d.goal_status ≡ GoalStatus.in_progress
      → is_completed k rs ≡ false
      → IsReady g fs k
      → Sound g fs rs d

abbrev pub Returns :
    InvestigationGoal
    → List AgentFinding
    → List ActionRecord
    → Result PolicyError PolicyDecision
    → Type 0
Returns g fs rs m = (d : PolicyDecision) × (m ≡ ok d) × Sound g fs rs d

-- Both branches of a test return.
pub either :
    {g : InvestigationGoal} {fs : List AgentFinding} {rs : List ActionRecord} (b : Bool)
    {m n : Result PolicyError PolicyDecision}
    → (b ≡ true → Returns g fs rs m)
    → (b ≡ false → Returns g fs rs n)
    → Returns g fs rs (if b then m else n)
either true h k = h refl
either false h k = k refl

module _ (g : InvestigationGoal) (fs : List AgentFinding) (rs : List ActionRecord)
    (facts : json_object g.known_facts ≡ ok tt) (missing : List String) where
  pub stop-Returns :
      (status : GoalStatus) (level : ConclusionLevel) (why : StopReason) (gone : List String)
      → (level ≡ ConclusionLevel.supported → IsSupported fs rs)
      → Returns g fs rs (stop status level why gone)
  unfolding stop decision check_decision
  stop-Returns status level why gone h = (_, refl, stops _ why refl refl h)

  pub next-Returns :
      (k : ActionKind) (reason : String)
      → is_filled reason ≡ true
      → IsReady g fs k
      → Returns g fs rs (next g rs k reason missing)
  unfolding next decision check_decision
  next-Returns k reason f r = elim (Bool-cases (is_completed k rs)) [
    | inl e ↦ rw e (
        stop-Returns GoalStatus.blocked ConclusionLevel.inconclusive StopReason.no_allowed_action
          missing (λ q. ground arith))
    | inr e ↦
        rw (e, action-checked g k reason facts f) (_, refl, acts _ k reason refl refl refl e r)
  ]
