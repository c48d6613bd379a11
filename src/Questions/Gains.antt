-- ===== src/Questions/Gains.antt =====
-- What an action gains that passes the gate with the missing groups of its questions
-- (core/yield_rca_core/question_capability.py and next_action_planner.py beside it).
use mathlib.Core.Path.{subst}
use autonomous_qwen_react.Prelude.{
  String, true, false, not, List, [], ◌∷◌, eq_iff, eq_refl, Dict, get, get-put, get-put_self, some,
  ok, All, ◌≡◌, ◌⊎◌, inl, inr, refl, ◌∙◌, arith, Bool-cases, >>=-eq-ok, raise_if-eq-ok,
  has_duplicates,
}
use autonomous_qwen_react.Policy.Models.{InvestigationAction}
use autonomous_qwen_react.Questions.Kinds.{occurs, meets, is_some_item}
use autonomous_qwen_react.Questions.Registry.{capability_of, allows, contribution_for}
use autonomous_qwen_react.Questions.Models.{InvestigationQuestion, QuestionEvidenceLink}
use autonomous_qwen_react.Questions.Decisions.{question_ids}
use autonomous_qwen_react.Questions.Scope.{Texts, action_scope_matches_question}
use autonomous_qwen_react.Questions.Gate.{
  missing_groups, put_missing, missing_groups_for_questions, check_gain, groups_or_none,
  validate_for_question, validate_each, validate_action_for_questions,
}

-- The action contributes to a group that is missing, or nothing is missing and it draws up hypotheses.
abbrev pub Gains : List String → List String → Type 0
Gains missing contribution =
    ((g : String) × (occurs g missing ≡ true) × (occurs g contribution ≡ true))
    ⊎ ((missing ≡ []) × (occurs "hypothesis_synthesis" contribution ≡ true))

abbrev pub IsGain :
    Texts → InvestigationAction → List QuestionEvidenceLink → InvestigationQuestion → Type 0
IsGain t a links q =
    ((capability_of q.question_kind).supported ≡ true)
    × (allows (capability_of q.question_kind) a.kind ≡ true)
    × (action_scope_matches_question t a q ≡ true)
    × Gains (missing_groups q links) (contribution_for (capability_of q.question_kind) a.kind)

meets-common :
    (xs ys : List String)
    → meets xs ys ≡ true
    → (g : String) × (occurs g xs ≡ true) × (occurs g ys ≡ true)
meets-common [] ys h = cc
meets-common (x ∷ xs) ys h = elim (Bool-cases (occurs x ys)) [
  | inl e ↦ (x, rw (eq_refl x) refl, e)
  | inr e ↦ let (g, m, n) = meets-common xs ys (ground (arith, e, h)) in (g, ground (arith, m), n)
]

check_gain-Gains :
    (missing contribution : List String)
    → check_gain missing contribution ≡ ok tt
    → Gains missing contribution
check_gain-Gains [] contribution h = inr (refl, ground (arith, h))
check_gain-Gains (x ∷ xs) contribution h = inl (
    meets-common (x ∷ xs) contribution
      (ground (arith, (raise_if-eq-ok (not (meets (x ∷ xs) contribution)) _ _ h).0)))

-- A question that does not come again keeps its groups.
put_missing-other :
    (i : String) (qs : List InvestigationQuestion) (links : List QuestionEvidenceLink)
    (d : Dict (List String))
    → occurs i (question_ids qs) ≡ false
    → get i (put_missing qs links d) ≡ get i d
put_missing-other i [] links d h = refl
put_missing-other i (q ∷ qs) links d h =
    put_missing-other i qs links _ (ground (arith, h))
    ∙ ground (
      arith,
      get-put q.question_id i (missing_groups q links) d,
      eq_iff i q.question_id,
      eq_iff q.question_id i,
      h,
    )

module _ (t : Texts) (a : InvestigationAction) (links : List QuestionEvidenceLink) where
  validate-IsGain :
      (missing : Dict (List String)) (q : InvestigationQuestion)
      → get q.question_id missing ≡ some (missing_groups q links)
      → validate_for_question t a (some missing) q ≡ ok tt
      → IsGain t a links q
  unfolding validate_for_question
  validate-IsGain missing q found e =
      let (supported, e1) = raise_if-eq-ok (not (capability_of q.question_kind).supported) _ _ e in
      let (allowed, e2) =
        raise_if-eq-ok (not (allows (capability_of q.question_kind) a.kind)) _ _ e1 in
      let (scope, e3) = raise_if-eq-ok (not (action_scope_matches_question t a q)) _ _ e2 in
      (
        ground (arith, supported),
        ground (arith, allowed),
        ground (arith, scope),
        check_gain-Gains _ _ (
            subst
              (λ o.
                check_gain (groups_or_none o)
                  (contribution_for (capability_of q.question_kind) a.kind)
                ≡ ok tt)
              found e3),
      )

  each-IsGain :
      (missing : Dict (List String)) (qs : List InvestigationQuestion)
      → All
          (λ (q : InvestigationQuestion). get q.question_id missing ≡ some (missing_groups q links))
          qs
      → validate_each t a (some missing) qs ≡ ok tt
      → All (IsGain t a links) qs
  each-IsGain missing [] found e = tt
  each-IsGain missing (q ∷ qs) found e =
      let (_, first, rest) = >>=-eq-ok (validate_for_question t a (some missing) q) _ e in
      (validate-IsGain missing q found.0 first, each-IsGain missing qs found.1 rest)

  missing-found :
      (qs : List InvestigationQuestion) (d : Dict (List String))
      → has_duplicates (question_ids qs) ≡ false
      → All
          (λ (q : InvestigationQuestion).
            get q.question_id (put_missing qs links d) ≡ some (missing_groups q links))
          qs
  missing-found [] d h = tt
  missing-found (q ∷ qs) d h = (
    put_missing-other q.question_id qs links _ (ground (arith, h))
        ∙ get-put_self q.question_id (missing_groups q links) d,
    missing-found qs _ (ground (arith, h)),
  )

  -- An action that passes the gate, with the missing groups of the questions that it targets, targets at least
  -- one, and gains for each of them: its kind is supported and allows the action, the scopes fit, and
  -- the action contributes to a group that the question still misses, or the question misses none and
  -- the action draws up hypotheses.
  pub validate_action_for_questions-IsGain :
      (qs : List InvestigationQuestion)
      → has_duplicates (question_ids qs) ≡ false
      → validate_action_for_questions t a (some (missing_groups_for_questions qs links)) qs ≡ ok tt
      → (is_some_item qs ≡ true) × All (IsGain t a links) qs
  unfolding validate_action_for_questions missing_groups_for_questions
  validate_action_for_questions-IsGain [] h e = cc
  validate_action_for_questions-IsGain (q ∷ qs) h e =
      (refl, each-IsGain _ (q ∷ qs) (missing-found (q ∷ qs) [] h) e)
