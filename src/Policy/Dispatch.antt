-- ===== src/Policy/Dispatch.antt =====
-- The step of core/yield_rca_core/supervisor.py by which `_dispatch_controlled` finds the scope of
-- an FDC and SPC inspection, and what the policy asks of it.
use autonomous_qwen_react.Prelude.{
  ℕ, false, true, ◌||◌, List, [], ◌∷◌, filter, any, length, leb, Option, none, some, Result, ok,
  raise, ◌≡◌, ◌<◌, refl, ap, ◌∙◌, arith,
}
use autonomous_qwen_react.Policy.Kinds.{
  AgentKind, ActionKind, InvestigationIntent, GoalStatus, ConclusionLevel, same_agent,
}
use autonomous_qwen_react.Policy.Models.{
  InvestigationGoal, InvestigationAction, ActionRecord, AgentFinding, check_goal,
}
use autonomous_qwen_react.Policy.Rules.{
  PolicyDecision, check_decision, has_finding, is_completed, has_process_context, gaps,
}
use autonomous_qwen_react.Policy.Decisions.{
  action, decision, next, spc_check_next, by_intent, next_action,
}
use autonomous_qwen_react.Policy.Sound.{action-checked}
use autonomous_qwen_react.Policy.Choice.{facts_checked}

pub data SupervisorError : Type 0 where
  no_selected_finding : AgentKind → SupervisorError

-- `matches[-1]`, if there is one.
abbrev last : List AgentFinding → Option AgentFinding
last [] = none
last (f ∷ fs) = elim (last fs) [ none ↦ some f | some x ↦ some x ]

-- `_latest_finding_for_agent`
unfoldable pub latest_finding_for_agent :
    List AgentFinding → AgentKind → Result SupervisorError AgentFinding
latest_finding_for_agent fs agent = elim (last (filter (λ f. same_agent agent f.agent) fs)) [
  | none ↦ raise (SupervisorError.no_selected_finding agent)
  | some f ↦ ok f
]

-- The scope that `_dispatch_controlled` reads first for `inspect_fdc_spc`.
unfoldable pub inspect_fdc_spc_scope : List AgentFinding → Result SupervisorError AgentFinding
inspect_fdc_spc_scope fs = latest_finding_for_agent fs AgentKind.mes

no_matches :
    (k : AgentKind) (fs : List AgentFinding)
    → any (λ f. same_agent k f.agent) fs ≡ false
    → filter (λ f. same_agent k f.agent) fs ≡ []
no_matches k [] h = refl
no_matches k (f ∷ fs) h = ground (arith, no_matches k fs)

abbrev inspection : InvestigationGoal → List AgentFinding → PolicyDecision
inspection g fs = record {
  goal_status = GoalStatus.in_progress;
  conclusion_level = ConclusionLevel.signal;
  next_action = some (
      action g ActionKind.inspect_fdc_spc
        "The process context is available; inspect FDC, OOC, and SPC evidence.");
  evidence_gaps = gaps g fs;
  stop_reason = none;
}

spc_check_next-inspects :
    (g : InvestigationGoal) (fs : List AgentFinding) (rs : List ActionRecord)
    → check_goal g ≡ ok tt
    → has_process_context g ≡ true
    → has_finding AgentKind.mes fs ≡ false
    → has_finding AgentKind.fdc fs ≡ false
    → is_completed ActionKind.inspect_fdc_spc rs ≡ false
    → spc_check_next g fs rs (gaps g fs) ≡ ok (inspection g fs)
unfolding spc_check_next next decision check_decision
spc_check_next-inspects g fs rs h c m f k =
    rw
      (
        m,
        c,
        f,
        k,
        action-checked g ActionKind.inspect_fdc_spc
            "The process context is available; inspect FDC, OOC, and SPC evidence."
            (facts_checked g h) refl,
      )
      refl

no_scope :
    (fs : List AgentFinding)
    → has_finding AgentKind.mes fs ≡ false
    → inspect_fdc_spc_scope fs ≡ raise (SupervisorError.no_selected_finding AgentKind.mes)
unfolding inspect_fdc_spc_scope latest_finding_for_agent has_finding
no_scope fs m = rw (no_matches AgentKind.mes fs m, latest_finding_for_agent) refl

-- An open SPC check that knows its equipment, chamber and operation, with no MES and no FDC finding
-- and no recorded inspection: the policy asks for `inspect_fdc_spc`, and the dispatcher has no MES
-- finding to take the scope from, so it raises.
pub spc_check-raises :
    (g : InvestigationGoal) (fs : List AgentFinding) (rs : List ActionRecord) (n : ℕ)
    → check_goal g ≡ ok tt
    → g.intent ≡ InvestigationIntent.spc_check
    → has_process_context g ≡ true
    → has_finding AgentKind.mes fs ≡ false
    → has_finding AgentKind.fdc fs ≡ false
    → is_completed ActionKind.inspect_fdc_spc rs ≡ false
    → length rs < g.max_steps
    → n < g.max_tool_calls
    → (d : PolicyDecision) × (a : InvestigationAction) × (next_action g fs rs n [] ≡ ok d)
      × (d.next_action ≡ some a)
      × (a.kind ≡ ActionKind.inspect_fdc_spc)
      × (inspect_fdc_spc_scope fs ≡ raise (SupervisorError.no_selected_finding AgentKind.mes))
unfolding next_action by_intent action
spc_check-raises g fs rs n h i c m f k a b = (
  inspection g fs,
  _,
  rw open_goal
      (ap (λ t. by_intent g t fs rs (gaps g fs)) i ∙ spc_check_next-inspects g fs rs h c m f k),
  refl,
  refl,
  no_scope fs m,
)
  where
    open_goal : (leb g.max_steps (length rs) || leb g.max_tool_calls n) ≡ false
    open_goal = ground arith
