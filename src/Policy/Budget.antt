-- ===== src/Policy/Budget.antt =====
-- The budgets of the loop `_continue_controlled` of core/yield_rca_core/supervisor.py.
use mathlib.Core.Path.{subst}
use autonomous_qwen_react.Prelude.{
  ℕ, zero, suc, ◌+◌, ◌-◌, ◌≤◌, ◌<◌, not, false, Bool, ◌||◌, String, List, [], any, length,
  length-append, ltb, leb, str_eq, Option, none, some, Result, ok, raise_if, ◌≡◌, inl, inr, refl,
  sym, ap, ◌∙◌, arith, Bool-cases, Option-cases, >>=-eq-ok, ok-injective, some_inj,
}
use autonomous_qwen_react.Policy.Kinds.{agent_value}
use autonomous_qwen_react.Policy.Models.{
  PolicyError, InvestigationGoal, InvestigationAction, ActionRecord, AgentFinding,
}
use autonomous_qwen_react.Policy.Rules.{PolicyDecision, check_decision}
use autonomous_qwen_react.Policy.Decisions.{next_action, stop, decision}
use autonomous_qwen_react.Policy.Loop.{
  Progress, LoopError, of_policy, Ending, stopped, raised, out_of_fuel, decide, record_finding, act,
  continue_controlled, controlled_action_tool_cost, start, execute_controlled,
}

-- The policy asks for an action only within the budget.
next_action-within :
    (g : InvestigationGoal) (fs : List AgentFinding) (rs : List ActionRecord) (n : ℕ)
    {d : PolicyDecision} {a : InvestigationAction}
    → next_action g fs rs n [] ≡ ok d
    → d.next_action ≡ some a
    → (length rs < g.max_steps) × (n < g.max_tool_calls)
unfolding next_action stop decision check_decision
next_action-within g fs rs n e f =
    elim (Bool-cases (leb g.max_steps (length rs) || leb g.max_tool_calls n)) [
      | inl b ↦ absurd (ground (arith, b, e, f))
      | inr b ↦ ground arith
    ]

-- What the loop ends with: a terminal decision within both budgets, or an exception.
abbrev pub Within : InvestigationGoal → Ending → Type 0
Within g (stopped p d) =
    (length p.action_history ≤ g.max_steps)
    × (p.tool_call_count ≤ g.max_tool_calls)
    × (d.next_action ≡ none)
Within g (raised e) = Unit
Within g out_of_fuel = ⊥

of_policy-eq-ok :
    (r : Result PolicyError PolicyDecision) {d : PolicyDecision} → of_policy r ≡ ok d → r ≡ ok d
of_policy-eq-ok (ok x) e = ground (arith, e)
of_policy-eq-ok (Result.raise x) e = cc

module _ (cost : InvestigationAction → Progress → ℕ)
    (dispatch : InvestigationAction → Progress → Result LoopError (AgentFinding × ℕ))
    (bounded : (a : InvestigationAction) (p : Progress) (f : AgentFinding) (n : ℕ)
      → dispatch a p ≡ ok (f, n)
      → n ≤ cost a p) where
  decide-within :
      (g : InvestigationGoal) (p : Progress) {d : PolicyDecision} {a : InvestigationAction}
      → decide cost g p ≡ ok d
      → d.next_action ≡ some a
      → (length p.action_history < g.max_steps) × (p.tool_call_count + cost a p ≤ g.max_tool_calls)
  unfolding decide
  decide-within g p {d} {a} e f =
      let calls = next_action g p.findings p.action_history p.tool_call_count [] in
      let (d0, q, r) = >>=-eq-ok (of_policy calls) _ e in
      elim (Option-cases d0.next_action) [
        | inl n ↦ absurd (ground (arith, n, f, ap (λ x. x.next_action) (ok-injective (rw n at r))))
        | inr (a0, m) ↦ elim (Bool-cases (ltb (g.max_tool_calls - p.tool_call_count) (cost a0 p))) [
          | inl b ↦
              let (_, late) =
                next_action-within g p.findings p.action_history g.max_tool_calls
                  (of_policy-eq-ok _ (rw (m, b) at r)) f in
              absurd (omega (arith, late))
          | inr b ↦
              let d0≡d = ok-injective (rw (m, b) at r) in
              let a0≡a = some_inj (sym m ∙ ap (λ x. x.next_action) d0≡d ∙ f) in
              let (steps, left) =
                next_action-within g p.findings p.action_history p.tool_call_count
                  (of_policy-eq-ok calls q) m in
              (
                steps,
                fits (cost a p) left (
                    subst (λ x. ltb (g.max_tool_calls - p.tool_call_count) (cost x p) ≡ false) a0≡a
                      b),
              )
        ]
      ]
    where
      fits :
          (c : ℕ)
          → p.tool_call_count < g.max_tool_calls
          → ltb (g.max_tool_calls - p.tool_call_count) c ≡ false
          → p.tool_call_count + c ≤ g.max_tool_calls
      fits c left b = ground arith

  act-steps :
      (a : InvestigationAction) (p : Progress) {p' : Progress}
      → act dispatch a p ≡ ok p'
      → (length p'.action_history ≡ suc (length p.action_history))
        × (p'.tool_call_count ≤ p.tool_call_count + cost a p)
  unfolding act record_finding
  act-steps a p {p'} e =
      let ((f, n), q, r) = >>=-eq-ok (dispatch a p) _ e in
      let (_, _, r1) = >>=-eq-ok (raise_if (not (str_eq (agent_value f.agent) a.agent)) _) _ r in
      let (_, _, r2) = >>=-eq-ok (raise_if (any _ p.findings) _) _ r1 in
      let b = bounded a p f n q in
      let p'≡ = sym (ok-injective r2) in
      (
        ap (λ x. length x.action_history) p'≡ ∙ length-append p.action_history _ ∙ omega arith,
        ground (arith, b, ap (λ x. x.tool_call_count) p'≡),
      )

  -- With more fuel than steps left, the loop ends before the fuel does.
  continue_controlled-Within :
      (g : InvestigationGoal) (fuel : ℕ) (p : Progress)
      → g.max_steps < fuel + length p.action_history
      → length p.action_history ≤ g.max_steps
      → p.tool_call_count ≤ g.max_tool_calls
      → Within g (continue_controlled cost dispatch g fuel p)
  unfolding continue_controlled
  continue_controlled-Within g zero p h l t = absurd (omega (arith, h, l))
  continue_controlled-Within g (suc fuel) p h l t =
      after_decision (continue_controlled-Within g fuel) (decide cost g p) refl
    where
      Again : Type 0
      Again =
          (p' : Progress)
          → g.max_steps < fuel + length p'.action_history
          → length p'.action_history ≤ g.max_steps
          → p'.tool_call_count ≤ g.max_tool_calls
          → Within g (continue_controlled cost dispatch g fuel p')

      after_action :
          Again
          → (a : InvestigationAction)
          → (length p.action_history < g.max_steps)
            × (p.tool_call_count + cost a p ≤ g.max_tool_calls)
          → (r : Result LoopError Progress) → act dispatch a p ≡ r
          → Within g (elim r [
            | Result.raise e ↦ raised e
            | ok p' ↦ continue_controlled cost dispatch g fuel p'
          ])
      after_action again a w (Result.raise e) q = tt
      after_action again a w (ok p') q =
          let (steps, calls) = act-steps a p q in
          again p' (omega (arith, h, steps)) (omega (arith, w.0, steps)) (omega (arith, w.1, calls))

      after_decision :
          Again
          → (r : Result LoopError PolicyDecision) → decide cost g p ≡ r
          → Within g (elim r [
            | Result.raise e ↦ raised e
            | ok d ↦ elim d.next_action [
              | none ↦ stopped p d
              | some a ↦ elim (act dispatch a p) [
                | Result.raise e ↦ raised e
                | ok p' ↦ continue_controlled cost dispatch g fuel p'
              ]
            ]
          ])
      after_decision again (Result.raise e) q = tt
      after_decision again (ok d) q = elim (Option-cases d.next_action) [
        | inl n ↦ rw n (l, t, n)
        | inr (a, m) ↦ rw m (after_action again a (decide-within g p q m) (act dispatch a p) refl)
      ]

-- The controlled loop ends within one round more than the goal has steps: with a terminal decision,
-- after at most `max_steps` actions and at most `max_tool_calls` tool calls, or with an exception,
-- if no dispatched action makes more tool calls than `_controlled_action_tool_cost` says.
pub execute_controlled-Within :
    (with_spc : Bool) (source_lot : Option String)
    (dispatch : InvestigationAction → Progress → Result LoopError (AgentFinding × ℕ))
    (g : InvestigationGoal)
    → ((a : InvestigationAction) (p : Progress) (f : AgentFinding) (n : ℕ)
        → dispatch a p ≡ ok (f, n)
        → n ≤ controlled_action_tool_cost with_spc source_lot a p)
    → Within g (execute_controlled with_spc source_lot dispatch g)
unfolding execute_controlled
execute_controlled-Within with_spc source_lot dispatch g bounded =
    continue_controlled-Within (controlled_action_tool_cost with_spc source_lot) dispatch bounded g
      (suc g.max_steps) start (omega arith) (omega arith) (omega arith)
