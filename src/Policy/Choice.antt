-- ===== src/Policy/Choice.antt =====
-- The branches of `InvestigationPolicy.next_action` (core/yield_rca_core/investigation_policy.py).
use autonomous_qwen_react.Prelude.{
  ℕ, String, Bool, true, false, not, ◌&&◌, ◌||◌, List, [], ◌∷◌, any, find, length, leb, none, some,
  Result, ok, ◌≡◌, ◌⊎◌, inl, inr, refl, ap, ◌∙◌, arith, ◌<◌, str_eq, eq_iff, Bool-cases, >>=-eq-ok,
}
use autonomous_qwen_react.Policy.Kinds.{
  AgentKind, ActionKind, InvestigationIntent, GoalStatus, ConclusionLevel, StopReason, same_agent,
  conclusion_level,
}
use autonomous_qwen_react.Policy.Models.{
  PolicyError, InvestigationGoal, ActionRecord, AgentFinding, check_goal, is_filled, json_object,
  non_empty,
}
use autonomous_qwen_react.Policy.Rules.{
  PolicyDecision, check_decision, has_finding, is_completed, knows, has_process_context, from_keys,
  gaps,
}
use autonomous_qwen_react.Policy.Decisions.{
  decision, stop, next, shared_defect_pattern_matches, rca_status, conclude, root_cause_next,
  impact_scope_next, spc_check_next, historical_lookup_next, by_intent, next_action,
}
use autonomous_qwen_react.Policy.Sound.{
  IsSupported, IsReady, Sound, stops, Returns, either, stop-Returns, next-Returns,
}

-- The first RCA finding, if there is one, has no status or one of the conclusion levels.
abbrev pub HasLevel : List AgentFinding → Type 0
HasLevel fs =
    (f : AgentFinding)
    → find (λ x. same_agent AgentKind.rca_reasoning x.agent) fs ≡ some f
    → (level : ConclusionLevel) × (conclusion_level (rca_status f) ≡ some level)

find-of-any {ℓ} :
    {A : Type ℓ} (test : A → Bool) (xs : List A)
    → any test xs ≡ true
    → (x : A) × (find test xs ≡ some x)
find-of-any test [] h = cc
find-of-any test (x ∷ xs) h = elim (Bool-cases (test x)) [
  | inl e ↦ rw e (x, refl)
  | inr e ↦ rw e (find-of-any test xs (rw e at h))
]

conclusion_level-supported :
    (t : String) → conclusion_level t ≡ some ConclusionLevel.supported → str_eq t "supported" ≡ true
unfolding conclusion_level
conclusion_level-supported t h = ground arith

module _ (g : InvestigationGoal) (fs : List AgentFinding) (rs : List ActionRecord)
    (facts : json_object g.known_facts ≡ ok tt) (levels : HasLevel fs) (missing : List String) where
  conclude-Returns :
      (f : AgentFinding)
      → find (λ x. same_agent AgentKind.rca_reasoning x.agent) fs ≡ some f
      → (rca_status f ≡ "supported" → IsSupported fs rs)
      → Returns g fs rs (conclude missing f)
  unfolding conclude
  conclude-Returns f e h = elim (Bool-cases (str_eq (rca_status f) "supported")) [
    | inl q ↦ rw q (
        stop-Returns g fs rs facts missing GoalStatus.satisfied ConclusionLevel.supported
          StopReason.goal_satisfied [] (λ _. h ((eq_iff (rca_status f) "supported").0 q)))
    | inr q ↦
        let (level, l) = levels f e in
        rw (q, l)
          (stop-Returns g fs rs facts missing GoalStatus.satisfied level StopReason.goal_satisfied
            missing
            (λ s.
              absurd
                (ground (arith, q, conclusion_level-supported (rca_status f) (l ∙ ap some s)))))
  ]

  go :
      (k : ActionKind) (reason : String)
      → is_filled reason ≡ true
      → IsReady g fs k
      → Returns g fs rs (next g rs k reason missing)
  go = next-Returns g fs rs facts missing

  root_cause_next-Returns : Returns g fs rs (root_cause_next g fs rs missing)
  unfolding root_cause_next
  root_cause_next-Returns =
      either (not (has_finding AgentKind.mes fs) && not (knows g "lot_id"))
        (λ _. go _ _ refl (inl refl))
        λ a.
          either (not (has_finding AgentKind.defect_wat fs)) (λ _. go _ _ refl (inl refl))
            λ b.
              either (not (has_finding AgentKind.mes fs)) (λ _. go _ _ refl (inl refl))
                λ c.
                  either (not (is_completed ActionKind.validate_shared_defect_pattern rs))
                    (λ _. go _ _ refl (inl (ground (arith, b, c))))
                    λ d.
                      either (not (has_finding AgentKind.fdc fs))
                        (λ _. go _ _ refl (inl (ground (arith, c))))
                        λ e.
                          either (not (has_finding AgentKind.rca_reasoning fs))
                            (λ _. go _ _ refl (inl (ground (arith, b, c, e))))
                            λ r.
                              either (not (shared_defect_pattern_matches fs))
                                (λ _. stop-Returns g fs rs facts missing _ _ _ _ (λ q. cc))
                                λ m.
                                  let (f, k) =
                                    find-of-any (λ x. same_agent AgentKind.rca_reasoning x.agent) fs
                                      (unfold has_finding in ground (arith, r)) in
                                  rw k (
                                    conclude-Returns f k (λ s. record {
                                      scoped = ground (arith, c);
                                      mechanism = ground (arith, e);
                                      outcome = ground (arith, b);
                                      compared = ground (arith, d);
                                      matching = ground (arith, m);
                                      reasoned = (f, k, s);
                                    }))

  impact_scope_next-Returns : Returns g fs rs (impact_scope_next g fs rs missing)
  unfolding impact_scope_next
  impact_scope_next-Returns =
      either (not (has_finding AgentKind.mes fs)) (λ _. go _ _ refl (inl refl))
        λ _. stop-Returns g fs rs facts missing _ _ _ _ (λ q. cc)

  spc_check_next-Returns :
      g.intent ≡ InvestigationIntent.spc_check → Returns g fs rs (spc_check_next g fs rs missing)
  unfolding spc_check_next
  spc_check_next-Returns i =
      either (not (has_finding AgentKind.mes fs) && not (has_process_context g))
        (λ _. go _ _ refl (inl refl))
        λ a.
          either (not (has_finding AgentKind.fdc fs)) (λ _. go _ _ refl (ready a))
            λ _. stop-Returns g fs rs facts missing _ _ _ _ (λ q. cc)
    where
      ready :
          (not (has_finding AgentKind.mes fs) && not (has_process_context g)) ≡ false
          → IsReady g fs ActionKind.inspect_fdc_spc
      ready a = elim (Bool-cases (has_finding AgentKind.mes fs)) [
        | inl e ↦ inl (ground (arith, e))
        | inr e ↦ inr (i, refl, ground (arith, a, e))
      ]

  historical_lookup_next-Returns : Returns g fs rs (historical_lookup_next g fs rs missing)
  unfolding historical_lookup_next
  historical_lookup_next-Returns =
      either
        (not (
          has_finding AgentKind.mes fs
          && has_finding AgentKind.fdc fs
          && has_finding AgentKind.defect_wat fs))
        (λ _. root_cause_next-Returns)
        λ a.
          either (not (has_finding AgentKind.knowledge fs))
            (λ _. go _ _ refl (inl (ground (arith, a))))
            λ _. stop-Returns g fs rs facts missing _ _ _ _ (λ q. cc)

  by_intent-Returns :
      (i : InvestigationIntent) → g.intent ≡ i → Returns g fs rs (by_intent g i fs rs missing)
  unfolding by_intent
  by_intent-Returns InvestigationIntent.impact_scope e = impact_scope_next-Returns
  by_intent-Returns InvestigationIntent.spc_check e = spc_check_next-Returns e
  by_intent-Returns InvestigationIntent.root_cause e = root_cause_next-Returns
  by_intent-Returns InvestigationIntent.historical_lookup e = historical_lookup_next-Returns
  by_intent-Returns InvestigationIntent.full_rca e = root_cause_next-Returns

pub facts_checked :
    (g : InvestigationGoal) → check_goal g ≡ ok tt → json_object g.known_facts ≡ ok tt
unfolding check_goal
facts_checked g h =
    let (_, _, after_id) = >>=-eq-ok (non_empty g.goal_id) (λ _. _) h in
    let (_, _, after_summary) = >>=-eq-ok (non_empty g.summary) (λ _. _) after_id in
    (>>=-eq-ok (json_object g.known_facts) (λ _. _) after_summary).1

-- Steps and tool calls are left, and no critical contradiction is known.
abbrev pub IsOpen : InvestigationGoal → List ActionRecord → ℕ → List String → Type 0
IsOpen g rs n cs = (length rs < g.max_steps) × (n < g.max_tool_calls) × (cs ≡ [])

-- For a goal that was built, and findings whose first RCA status, if any, is absent or a conclusion
-- level, `next_action` returns. It stops, with the findings, the comparison and the RCA status
-- behind it if the conclusion is supported; or the investigation is open and it asks for one action
-- of the registry that was not recorded before, with the findings that the registry requires (an
-- SPC check with a process context needs none).
pub next_action-Sound :
    (g : InvestigationGoal) (fs : List AgentFinding) (rs : List ActionRecord) (n : ℕ)
    (cs : List String)
    → check_goal g ≡ ok tt
    → HasLevel fs
    → (d : PolicyDecision) × (next_action g fs rs n cs ≡ ok d)
      × Sound g fs rs d
      × ((d.next_action ≡ none) ⊎ IsOpen g rs n cs)
unfolding next_action stop decision check_decision
next_action-Sound g fs rs n cs h l =
    elim (Bool-cases (leb g.max_steps (length rs) || leb g.max_tool_calls n)) [
      | inl e ↦ rw e (_, refl, stops _ StopReason.budget_exhausted refl refl (λ q. cc), inl refl)
      | inr e ↦ rw e (within cs (ground arith) (ground arith))
    ]
  where
    within :
        (cs : List String)
        → length rs < g.max_steps
        → n < g.max_tool_calls
        → (d : PolicyDecision) × ((elim cs as (λ _. Result PolicyError PolicyDecision) [
          | [] ↦ by_intent g g.intent fs rs (gaps g fs)
          | c ∷ cs' ↦
              stop GoalStatus.blocked ConclusionLevel.conflicted StopReason.critical_contradiction
                (from_keys (c ∷ cs'))
        ])
            ≡ ok d)
          × Sound g fs rs d
          × ((d.next_action ≡ none) ⊎ IsOpen g rs n cs)
    within [] a b =
        let (d, q, s) = by_intent-Returns g fs rs (facts_checked g h) l (gaps g fs) g.intent refl in
        (d, q, s, inr (a, b, refl))
    within (c ∷ cs') a b =
        (_, refl, stops _ StopReason.critical_contradiction refl refl (λ q. cc), inl refl)
