-- ===== src/Questions/Progress.antt =====
-- An investigation can get on: for a group that a question misses there is an action that the gate
-- accepts, and evidence that fills the group (core/yield_rca_core/question_capability.py and question_evidence.py).
use mathlib.Core.Path.{subst, subst₂}
use autonomous_qwen_react.Prelude.{
  String, true, false, List, [], ◌∷◌, ◌++◌, any, str_eq, eq_iff, eq_refl, Dict, get, get-put_self,
  Option, none, some, ok, ◌≡◌, ◌≢◌, refl, sym, ap, arith, inl, inr, Bool-cases, >>=-ok,
}
use autonomous_qwen_react.Policy.Models.{InvestigationAction, ActionRecord}
use autonomous_qwen_react.Evidence.Collection.{Evidence}
use autonomous_qwen_react.Questions.Kinds.{supports, occurs, meets, without}
use autonomous_qwen_react.Questions.Registry.{capability_of, allows, contribution_for}
use autonomous_qwen_react.Questions.Models.{InvestigationQuestion, QuestionEvidenceLink}
use autonomous_qwen_react.Questions.Scope.{
  Texts, Typed, action_scope_matches_question, evidence_scope_matches_question,
}
use autonomous_qwen_react.Questions.Gate.{
  missing_groups, missing_groups_for_questions, validate_action_for_questions,
  validate_for_question, check_missing, check_gain,
}
use autonomous_qwen_react.Questions.Links.{
  type_of, by_id, stated_relation, links_of_type, links_of_item, resolve, matched_group,
}
use autonomous_qwen_react.Questions.Fillable.{
  filler, fills, is_group, is_filled_or_lost, all_filled, test-of_all, is_fill,
  supported-not_missing, links_of_ids-any, resolve_each-any, any_right,
}

occurs-of_without :
    (g : String) (xs ys : List String) → occurs g (without xs ys) ≡ true → occurs g xs ≡ true
occurs-of_without g [] ys h = h
occurs-of_without g (x ∷ xs) ys h = elim (Bool-cases (occurs x ys)) [
  | inl e ↦ ground (arith, e, h, occurs-of_without g xs ys)
  | inr e ↦ ground (arith, e, h, occurs-of_without g xs ys)
]

some-of_is_group : (o : Option String) (g : String) → is_group o g ≡ true → o ≡ some g
some-of_is_group none g h = cc
some-of_is_group (some x) g h = ap some ((eq_iff x g).0 h)

missing_groups-single :
    (q : InvestigationQuestion) (links : List QuestionEvidenceLink)
    → get q.question_id (missing_groups_for_questions (q ∷ []) links)
      ≡ some (missing_groups q links)
unfolding missing_groups_for_questions
missing_groups-single q links = get-put_self q.question_id (missing_groups q links) []

check_missing-gain :
    (d : Dict (List String)) (i : String) (contribution : List String) {missing : List String}
    → get i d ≡ some missing
    → check_gain missing contribution ≡ ok tt
    → check_missing (some d) i contribution ≡ ok tt
check_missing-gain d i contribution e h = rw e h

gained :
    (g : String) (missing contribution : List String)
    → occurs g missing ≡ true
    → occurs g contribution ≡ true
    → check_gain missing contribution ≡ ok tt
gained g [] contribution m c = cc
gained g (x ∷ xs) contribution m c = rw (met (x ∷ xs) m) refl
  where
    met : (ys : List String) → occurs g ys ≡ true → meets ys contribution ≡ true
    met [] h = cc
    met (y ∷ ys) h = elim (Bool-cases (str_eq g y)) [
      | inl e ↦ rw⁻¹ ((eq_iff g y).0 e) (rw c refl)
      | inr e ↦ ground (arith, e, h, met ys)
    ]

module _ (t : Texts) (q : InvestigationQuestion) (g : String)
    (links : List QuestionEvidenceLink) where
  -- Evidence of this type, if it is produced by an action of this kind, and does not contradict.
  pub record IsProduced (r : ActionRecord) (type : String) (evidence : List (Evidence Typed))
      : Type 0 where
    pub item : Evidence Typed
    pub is_filed : get item.evidence_id (by_id evidence []) ≡ some item
    pub is_among : occurs item.evidence_id r.produced_evidence_ids ≡ true
    pub has_type : type_of item ≡ type
    pub is_of_schema : item.payload.is_typed ≡ true
    pub is_in_scope : evidence_scope_matches_question t item q ≡ true
    pub is_agreeing : stated_relation (get "relation" item.payload.metadata) ≡ supports

  module _ (supported : (capability_of q.question_kind).supported ≡ true) where
    gate-ok :
        (a : InvestigationAction) (type : String)
        → occurs g (missing_groups q links) ≡ true
        → fills q.question_kind g a.kind type ≡ true
        → action_scope_matches_question t a q ≡ true
        → validate_action_for_questions t a
            (some (missing_groups_for_questions (q ∷ []) links))
            (q ∷ [])
          ≡ ok tt
    unfolding validate_action_for_questions validate_for_question
    gate-ok a type m f scope =
        let allowed : allows (capability_of q.question_kind) a.kind ≡ true = ground (arith, f) in
        rw (supported, allowed, scope)
          (>>=-ok _ (
            check_missing-gain _ q.question_id _ (missing_groups-single q links) (
              gained g (missing_groups q links)
                (contribution_for (capability_of q.question_kind) a.kind) m (ground (arith, f)))))

    links-any :
        (r : ActionRecord) (e : Evidence Typed)
        → fills q.question_kind g r.action.kind (type_of e) ≡ true
        → e.payload.is_typed ≡ true
        → evidence_scope_matches_question t e q ≡ true
        → stated_relation (get "relation" e.payload.metadata) ≡ supports
        → any (is_fill q g) (links_of_item t r q (some e)) ≡ true
    unfolding links_of_item links_of_type
    links-any r e f typed scope stated =
        let available : str_eq (type_of e) "data_missing" ≡ false = ground (arith, f) in
        let known : occurs (type_of e) (capability_of q.question_kind).accepted_evidence_types
            ≡ true =
          ground (arith, f) in
        let group =
          some-of_is_group
            (matched_group e (contribution_for (capability_of q.question_kind) r.action.kind)) g
            (ground (arith, f)) in
        rw (scope, available, known, group, stated, typed, eq_refl q.question_id, eq_refl g) refl

  table-fills :
      occurs g (missing_groups q links) ≡ true
      → (capability_of q.question_kind).supported ≡ true
      → g ≢ "process_exposure"
      → fills q.question_kind g (filler g).0 (filler g).1 ≡ true
  unfolding missing_groups
  table-fills m supported other =
      let closing : occurs g (capability_of q.question_kind).closure_evidence_groups ≡ true =
        occurs-of_without g _ _ m in
      let h =
        test-of_all (is_filled_or_lost q.question_kind) g _ (all_filled q.question_kind) closing in
      elim (Bool-cases (str_eq g "process_exposure")) [
        | inl e ↦ absurd (other ((eq_iff g "process_exposure").0 e))
        | inr e ↦ ground (arith, supported, e, h)
      ]

  produced :
      (r : ActionRecord) (before after : List InvestigationQuestion)
      (evidence : List (Evidence Typed))
      → (capability_of q.question_kind).supported ≡ true
      → fills q.question_kind g (filler g).0 (filler g).1 ≡ true
      → r.action.kind ≡ (filler g).0
      → action_scope_matches_question t r.action q ≡ true
      → IsProduced r (filler g).1 evidence
      → any (is_fill q g) (resolve t r (before ++ q ∷ after) evidence) ≡ true
  unfolding resolve
  produced r before after evidence supported f e scope p =
      let f' : fills q.question_kind g r.action.kind (type_of p.item) ≡ true =
        subst₂ (λ k type. fills q.question_kind g k type ≡ true) (sym e) (sym p.has_type) f in
      let allowed : allows (capability_of q.question_kind) r.action.kind ≡ true =
        ground (arith, f') in
      resolve_each-any t r (is_fill q g) q (by_id evidence []) before after
        (ground (arith, supported, allowed, scope))
        (links_of_ids-any t r (is_fill q g) q (by_id evidence []) p.item.evidence_id
          r.produced_evidence_ids p.is_among p.is_filed
          (links-any supported r p.item f' p.is_of_schema p.is_in_scope p.is_agreeing))

  -- A question of a supported kind that misses a group other than `process_exposure` can get on: an action of the
  -- kind that `filler` names for the group, in the scope of the question, passes the gate for it, and when
  -- it has produced evidence of the type that is named there, typed, in scope and not contradicting, the
  -- links of the evidence fill the group, whatever else is asked and found.
  pub missing_group_fillable :
      (r : ActionRecord) (before after : List InvestigationQuestion)
      (evidence : List (Evidence Typed))
      → occurs g (missing_groups q links) ≡ true
      → (capability_of q.question_kind).supported ≡ true
      → g ≢ "process_exposure"
      → r.action.kind ≡ (filler g).0
      → action_scope_matches_question t r.action q ≡ true
      → IsProduced r (filler g).1 evidence
      → (validate_action_for_questions t r.action
            (some (missing_groups_for_questions (q ∷ []) links))
            (q ∷ [])
          ≡ ok tt)
        × (occurs g (missing_groups q (links ++ resolve t r (before ++ q ∷ after) evidence))
            ≡ false)
  missing_group_fillable r before after evidence m supported other e scope p =
      let f = table-fills m supported other in
      (
        gate-ok supported r.action (filler g).1 m
            (subst (λ k. fills q.question_kind g k (filler g).1 ≡ true) (sym e) f) scope,
        supported-not_missing q g (links ++ resolve t r (before ++ q ∷ after) evidence) (
            any_right (is_fill q g) links _
              (produced r before after evidence supported f e scope p)),
      )
