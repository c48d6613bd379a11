-- ===== src/Questions/Settled.antt =====
-- Python proposes an update of every question of which the review would accept one
-- (core/yield_rca_core/next_action_planner.py and question_update_review.py beside it).
use mathlib.Core.Path.{subst}
use autonomous_qwen_react.Prelude.{
  String, Bool, true, ◌&&◌, ◌||◌, List, [], ◌∷◌, ◌++◌, any, all, filter, find, str_eq, eq_refl, get,
  some, ok, ◌≡◌, refl, sym, ap, ◌∙◌, arith, ◌⊎◌, inl, inr, Bool-cases, >>=-eq-ok, some_inj,
  ok-injective,
}
use autonomous_qwen_react.Questions.Kinds.{
  closed, unavailable, is_supporting, is_unavailable, occurs, is_subset, is_some_item,
}
use autonomous_qwen_react.Questions.Registry.{capability_of}
use autonomous_qwen_react.Questions.Models.{
  InvestigationQuestion, QuestionEvidenceLink, QuestionUpdate, check_update, check_terminal,
}
use autonomous_qwen_react.Questions.Decisions.{updated_ids}
use autonomous_qwen_react.Questions.Scope.{Texts}
use autonomous_qwen_react.Questions.Verdicts.{
  ReviewContext, applicable, satisfied_groups, existing_questions, has_unavailable_link,
}
use autonomous_qwen_react.Questions.Justified.{
  IsFair, IsAnswered, IsCovered, IsUnavailable, is_support, judge_update-IsFair,
}
use autonomous_qwen_react.Questions.Judged.{check_update-eq-ok, terminal_status}
use autonomous_qwen_react.Questions.Terminal.{
  is_applicable_to, lacks_data, built_update, unavailable_update, closing_of, terminal_update,
}
use autonomous_qwen_react.Questions.Accepted.{IsReady, IsAccepted}

-- If the review would accept any update of the question at all, there is one among these.
abbrev pub IsSettled : ReviewContext → List QuestionUpdate → InvestigationQuestion → Type 0
IsSettled c us q =
    (u : QuestionUpdate)
    → u.question_id ≡ q.question_id
    → IsAccepted c u
    → occurs q.question_id (updated_ids us) ≡ true

occurs-append :
    (i : String) (us vs : List QuestionUpdate)
    → occurs i (updated_ids (us ++ vs)) ≡ (occurs i (updated_ids us) || occurs i (updated_ids vs))
occurs-append i [] vs = refl
occurs-append i (u ∷ us) vs = ground (arith, occurs-append i us vs)

pub IsSettled-left :
    (c : ReviewContext) (us vs : List QuestionUpdate) (q : InvestigationQuestion)
    → IsSettled c us q
    → IsSettled c (us ++ vs) q
IsSettled-left c us vs q h u e a = ground (arith, occurs-append q.question_id us vs, h u e a)

pub IsSettled-right :
    (c : ReviewContext) (us vs : List QuestionUpdate) (q : InvestigationQuestion)
    → IsSettled c vs q
    → IsSettled c (us ++ vs) q
IsSettled-right c us vs q h u e a = ground (arith, occurs-append q.question_id us vs, h u e a)

all-weaken :
    (f g : String → Bool) (xs : List String)
    → ((x : String) → f x ≡ true → g x ≡ true)
    → all f xs ≡ true
    → all g xs ≡ true
all-weaken f g [] w h = refl
all-weaken f g (x ∷ xs) w h = ground (arith, h, w x, all-weaken f g xs w)

-- A link that supports a group for an update of the question does so for the question.
support-satisfied :
    (q : InvestigationQuestion) (u : QuestionUpdate) (g : String) (ls : List QuestionEvidenceLink)
    → u.question_id ≡ q.question_id
    → any (is_support u g) ls ≡ true
    → occurs g (satisfied_groups (filter (is_applicable_to q) ls)) ≡ true
support-satisfied q u g [] e h = cc
support-satisfied q u g (l ∷ ls) e h = elim (Bool-cases (is_applicable_to q l)) [
  | inl a ↦ rw a (elim (Bool-cases (is_supporting l.relation)) [
    | inl s ↦ rw s (ground (arith, h, s, support-satisfied q u g ls e))
    | inr s ↦ rw s (ground (arith, h, s, support-satisfied q u g ls e))
  ])
  | inr a ↦ rw a (support-satisfied q u g ls e (ground (arith, h, a, ap (str_eq l.question_id) e)))
]

-- A link that bears on an update of the question bears on the question.
cited-applicable :
    (q : InvestigationQuestion) (u : QuestionUpdate) (i : String) (ls : List QuestionEvidenceLink)
    → u.question_id ≡ q.question_id
    → any (λ l. applicable u l && str_eq i l.evidence_id) ls ≡ true
    → is_some_item (filter (is_applicable_to q) ls) ≡ true
cited-applicable q u i [] e h = cc
cited-applicable q u i (l ∷ ls) e h = elim (Bool-cases (is_applicable_to q l)) [
  | inl a ↦ rw a refl
  | inr a ↦ rw a (cited-applicable q u i ls e (ground (arith, h, a, ap (str_eq l.question_id) e)))
]

found :
    (test : QuestionEvidenceLink → Bool) (ls : List QuestionEvidenceLink)
    → any test ls ≡ true
    → (l : QuestionEvidenceLink) × (find test ls ≡ some l)
found test [] h = cc
found test (l ∷ ls) h = elim (Bool-cases (test l)) [
  | inl e ↦ (l, rw e refl)
  | inr e ↦ let (k, f) = found test ls (rw e at h) in (k, rw e f)
]

built : (u : QuestionUpdate) {us : List QuestionUpdate} → built_update u ≡ ok us → us ≡ u ∷ []
built u e = let (_, _, q) = >>=-eq-ok (check_update u) _ e in sym (ok-injective q)

module _ (c : ReviewContext) (links : List QuestionEvidenceLink)
    (known : c.question_evidence_links ≡ some links) (q : InvestigationQuestion)
    (ready : IsReady c q) where
  -- What Python asks of the links to close the question.
  abbrev closes : Bool
  closes =
      is_subset (capability_of q.question_kind).closure_evidence_groups
        (satisfied_groups (filter (is_applicable_to q) links))
      && is_some_item (filter (is_applicable_to q) links)

  some_evidence :
      (u : QuestionUpdate)
      → u.question_id ≡ q.question_id
      → (ids : List String) → is_some_item ids ≡ true
      → all (λ i. any (λ l. applicable u l && str_eq i l.evidence_id) links) ids ≡ true
      → is_some_item (filter (is_applicable_to q) links) ≡ true
  some_evidence u e [] s h = cc
  some_evidence u e (i ∷ ids) s h = cited-applicable q u i links e (ground (arith, h))

  closed-closes :
      (u : QuestionUpdate)
      → u.question_id ≡ q.question_id
      → u.status ≡ closed
      → check_terminal u u.status ≡ ok tt
      → IsAnswered c q u u.status
      → closes ≡ true
  closed-closes u e s terminal answered =
      let (_, covers) = subst (IsAnswered c q u) s answered in
      let (cites, groups) = subst (λ o. IsCovered q u o) known covers in
      let some_id : is_some_item u.evidence_ids ≡ true = ground (arith, s, terminal) in
      let satisfied =
        all-weaken (λ g. any (is_support u g) links)
          (λ g. occurs g (satisfied_groups (filter (is_applicable_to q) links)))
          (capability_of q.question_kind).closure_evidence_groups
          (λ g h. support-satisfied q u g links e h) groups in
      rw (satisfied, some_evidence u e u.evidence_ids some_id cites) refl

  unavailable-lacks :
      (u : QuestionUpdate)
      → u.question_id ≡ q.question_id
      → u.status ≡ unavailable
      → IsAnswered c q u u.status
      → any (lacks_data q) links ≡ true
  unavailable-lacks u e s answered =
      let stated = subst (λ o. IsUnavailable c q u o) known (subst (IsAnswered c q u) s answered) in
      let linked : has_unavailable_link u links ≡ true = rw ready.is_not_noticed at stated in
      subst
        (λ i.
          any (λ (l : QuestionEvidenceLink). str_eq l.question_id i && is_unavailable l.relation)
            links
          ≡ true)
        e linked

  -- What an accepted update of the question shows of the links.
  accepted-cases :
      (u : QuestionUpdate)
      → u.question_id ≡ q.question_id
      → IsAccepted c u
      → (closes ≡ true) ⊎ (any (lacks_data q) links ≡ true)
  accepted-cases u e (checked, a) =
      let (filled, terminal) = check_update-eq-ok u checked in
      let status = terminal_status u terminal in
      let (_, j) = subst (IsFair c u) a (judge_update-IsFair c u filled status) in
      let current =
        subst (λ i. get i (existing_questions c.questions []) ≡ some q) (sym e) ready.is_current in
      let same : j.question ≡ q = some_inj (sym j.is_current ∙ current) in
      let answered = subst (λ p. IsAnswered c p u u.status) same j.is_answered in
      elim status [
        | inl s ↦ inl (closed-closes u e s terminal answered)
        | inr s ↦ inr (unavailable-lacks u e s answered)
      ]

  module _ (t : Texts) (summaries : List String) where
    pub terminal_update-IsSettled :
        {us : List QuestionUpdate} → terminal_update t summaries links q ≡ ok us → IsSettled c us q
    unfolding terminal_update
    terminal_update-IsSettled r u e a = elim (Bool-cases closes) [
      | inl b ↦
          rw (built (closing_of t summaries q (filter (is_applicable_to q) links)) (rw b at r))
            (rw (eq_refl q.question_id) refl)
      | inr b ↦ elim (accepted-cases u e a) [
        | inl x ↦ absurd (ground (arith, b, x))
        | inr x ↦
            let (l, f) = found (lacks_data q) links x in
            rw
              (built
                (unavailable_update q "The required Evidence source is unavailable."
                  (l.evidence_id ∷ []))
                (rw (b, f) at r))
              (rw (eq_refl q.question_id) refl)
      ]
    ]
