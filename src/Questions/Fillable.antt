-- ===== src/Questions/Fillable.antt =====
-- Every evidence group that a question misses, but one, can be filled (core/yield_rca_core/question_capability.py
-- and question_evidence.py).
use mathlib.Core.Path.{subst}
use autonomous_qwen_react.Prelude.{
  String, Bool, true, false, not, ◌&&◌, ◌||◌, List, [], ◌∷◌, ◌++◌, any, all, str_eq, eq_iff, Dict,
  get, Option, none, some, if◌then◌else◌, ◌≡◌, refl, sym, ap, arith, inl, inr, Bool-cases,
}
use autonomous_qwen_react.Policy.Kinds.{
  ActionKind, inspect_defect_pattern, validate_shared_defect_pattern, find_shared_exposure,
  inspect_fdc_spc, validate_historical_case, conclude_inconclusive,
}
use autonomous_qwen_react.Policy.Models.{ActionRecord}
use autonomous_qwen_react.Evidence.Collection.{Evidence}
use autonomous_qwen_react.Questions.Kinds.{
  QuestionKind, defect_signature, impact_scope, spc_signal, process_mechanism, product_outcome,
  historical_match, tool_history, recipe_history, metrology_correlation, material_trace,
  unsupported, occurs, without, is_supporting,
}
use autonomous_qwen_react.Questions.Registry.{capability_of, allows, contribution_for}
use autonomous_qwen_react.Questions.Models.{InvestigationQuestion, QuestionEvidenceLink}
use autonomous_qwen_react.Questions.Scope.{Texts, Typed}
use autonomous_qwen_react.Questions.Gate.{missing_groups, supported_groups}
use autonomous_qwen_react.Questions.Links.{
  group_of_type, group_preferences, links_of_item, links_of_ids, is_applicable, resolve_each,
}

-- An action, and a type of evidence, that fill a group.
abbrev pub filler : String → ActionKind × String
filler g =
    if str_eq g "product_signal"
    then (inspect_defect_pattern, "defect_signal")
    else if str_eq g "shared_product_signal"
    then (validate_shared_defect_pattern, "defect_signal")
    else if str_eq g "shared_exposure"
    then (find_shared_exposure, "process_exposure")
    else if str_eq g "impact_scope"
    then (find_shared_exposure, "impact_scope")
    else if str_eq g "process_anomaly"
    then (inspect_fdc_spc, "parameter_deviation")
    else if str_eq g "historical_context"
    then (validate_historical_case, "historical_case_match")
    else if str_eq g "lot_context"
    then (find_shared_exposure, "lot_context")
    else if str_eq g "recipe_context"
    then (find_shared_exposure, "recipe_change")
    else if str_eq g "metrology_signal"
    then (inspect_defect_pattern, "metrology_deviation")
    else (conclude_inconclusive, "")

abbrev pub is_group : Option String → String → Bool
is_group none g = false
is_group (some h) g = str_eq h g

-- Whether this action and this type of evidence fill the group of a question of this kind.
abbrev pub fills : QuestionKind → String → ActionKind → String → Bool
fills kind g k type =
    allows (capability_of kind) k
    && occurs g (contribution_for (capability_of kind) k)
    && occurs type (capability_of kind).accepted_evidence_types
    && not (str_eq type "data_missing")
    && is_group (group_of_type type (contribution_for (capability_of kind) k)) g

abbrev pub is_filled_or_lost : QuestionKind → String → Bool
is_filled_or_lost kind g =
    not (capability_of kind).supported
    || str_eq g "process_exposure"
    || fills kind g (filler g).0 (filler g).1

-- The table, kind by kind.
pub all_filled :
    (kind : QuestionKind)
    → all (is_filled_or_lost kind) (capability_of kind).closure_evidence_groups ≡ true
unfolding capability_of group_of_type group_preferences get
all_filled defect_signature = refl
all_filled impact_scope = refl
all_filled spc_signal = refl
all_filled process_mechanism = refl
all_filled product_outcome = refl
all_filled historical_match = refl
all_filled tool_history = refl
all_filled recipe_history = refl
all_filled metrology_correlation = refl
all_filled material_trace = refl
all_filled unsupported = refl

pub test-of_all :
    (test : String → Bool) (g : String) (gs : List String)
    → all test gs ≡ true
    → occurs g gs ≡ true
    → test g ≡ true
test-of_all test g [] h k = cc
test-of_all test g (x ∷ xs) h k = elim (Bool-cases (str_eq g x)) [
  | inl e ↦ subst (λ y. test y ≡ true) (sym ((eq_iff g x).0 e)) (ground (arith, h))
  | inr e ↦ test-of_all test g xs (ground (arith, h)) (ground (arith, e, k))
]

-- A link that supports the group of the question.
abbrev pub is_fill : InvestigationQuestion → String → QuestionEvidenceLink → Bool
is_fill q g l =
    str_eq l.question_id q.question_id
    && is_supporting l.relation
    && str_eq g l.matched_evidence_group

pub any_left {ℓ} :
    {A : Type ℓ} (test : A → Bool) (xs ys : List A)
    → any test xs ≡ true
    → any test (xs ++ ys) ≡ true
any_left test [] ys h = cc
any_left test (x ∷ xs) ys h = elim (Bool-cases (test x)) [
  | inl e ↦ rw e refl
  | inr e ↦ rw e (any_left test xs ys (ground (arith, e, h)))
]

pub any_right {ℓ} :
    {A : Type ℓ} (test : A → Bool) (xs ys : List A)
    → any test ys ≡ true
    → any test (xs ++ ys) ≡ true
any_right test [] ys h = h
any_right test (x ∷ xs) ys h = ground (arith, any_right test xs ys h)

-- A group that a link supports is not missing.
pub supported-not_missing :
    (q : InvestigationQuestion) (g : String) (links : List QuestionEvidenceLink)
    → any (is_fill q g) links ≡ true
    → occurs g (missing_groups q links) ≡ false
unfolding missing_groups
supported-not_missing q g links h =
    removed (capability_of q.question_kind).closure_evidence_groups _ (found links h)
  where
    found :
        (ls : List QuestionEvidenceLink)
        → any (is_fill q g) ls ≡ true
        → occurs g (supported_groups q.question_id ls) ≡ true
    found [] e = cc
    found (l ∷ ls) e =
        elim (Bool-cases (str_eq l.question_id q.question_id && is_supporting l.relation)) [
          | inl b ↦ ground (arith, b, e, found ls)
          | inr b ↦ ground (arith, b, e, found ls)
        ]

    removed : (xs ys : List String) → occurs g ys ≡ true → occurs g (without xs ys) ≡ false
    removed [] ys e = refl
    removed (x ∷ xs) ys e = elim (Bool-cases (occurs x ys)) [
      | inl b ↦ rw b (removed xs ys e)
      | inr b ↦ elim (Bool-cases (str_eq g x)) [
        | inl s ↦ absurd (ground (arith, ap (λ y. occurs y ys) ((eq_iff g x).0 s), b, e))
        | inr s ↦ rw b (rw s (removed xs ys e))
      ]
    ]

module _ (t : Texts) (r : ActionRecord) (test : QuestionEvidenceLink → Bool)
    (q : InvestigationQuestion) where
  pub links_of_ids-any :
      (d : Dict (Evidence Typed)) (i : String) (is : List String) {e : Evidence Typed}
      → occurs i is ≡ true
      → get i d ≡ some e
      → any test (links_of_item t r q (some e)) ≡ true
      → any test (links_of_ids t r q d is) ≡ true
  links_of_ids-any d i [] m g h = cc
  links_of_ids-any d i (j ∷ js) m g h = elim (Bool-cases (str_eq i j)) [
    | inl e ↦
        any_left test _ _
          (subst (λ k. any test (links_of_item t r q (get k d)) ≡ true) ((eq_iff i j).0 e) (rw g h))
    | inr e ↦
        any_right test (links_of_item t r q (get j d)) _
          (links_of_ids-any d i js (ground (arith, e, m)) g h)
  ]

  pub resolve_each-any :
      (d : Dict (Evidence Typed)) (before after : List InvestigationQuestion)
      → is_applicable t r q ≡ true
      → any test (links_of_ids t r q d r.produced_evidence_ids) ≡ true
      → any test (resolve_each t r d (before ++ q ∷ after)) ≡ true
  resolve_each-any d [] after a h = rw a (any_left test _ _ h)
  resolve_each-any d (p ∷ ps) after a h =
      let rest = resolve_each-any d ps after a h in
      elim (Bool-cases (is_applicable t r p)) [
        | inl e ↦ rw e (any_right test (links_of_ids t r p d r.produced_evidence_ids) _ rest)
        | inr e ↦ rw e rest
      ]
