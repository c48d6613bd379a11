-- ===== src/Questions/Proposed.antt =====
-- The updates that Python proposes when an investigation stops (core/yield_rca_core/next_action_planner.py) pass their
-- checks and the review.
use mathlib.Core.Path.{subst}
use autonomous_qwen_react.Prelude.{
  String, Bool, true, ◌&&◌, List, [], ◌∷◌, ◌++◌, any, all, filter, find, some, Result, ok, All,
  All-append, All-map, ◌≡◌, refl, sym, ap, ◌∙◌, arith, inl, inr, Bool-cases, Option-cases, >>=-ok,
  some_inj,
}
use autonomous_qwen_react.Policy.Models.{non_empty as non_blank}
use autonomous_qwen_react.Policy.Models.{PolicyError, is_filled, string_list}
use autonomous_qwen_react.Questions.Kinds.{occurs, is_subset, is_some_item}
use autonomous_qwen_react.Questions.Registry.{capability_of}
use autonomous_qwen_react.Questions.Models.{
  InvestigationQuestion, QuestionEvidenceLink, QuestionUpdate, check_update,
}
use autonomous_qwen_react.Questions.Scope.{Texts}
use autonomous_qwen_react.Questions.Verdicts.{ReviewContext, linked_evidence_ids, satisfied_groups}
use autonomous_qwen_react.Questions.Terminal.{
  sorted_set, is_applicable_to, lacks_data, built_update, unavailable_update, by_lacking,
  closing_of, terminal_update, each_update, terminal_question_updates,
}
use autonomous_qwen_react.Questions.Accepted.{
  StripsBlanks, closing_of-checked, filter-all, linked-all, IsReady, IsAccepted, closing-accepted,
  lack-accepted,
}
use autonomous_qwen_react.Questions.Settled.{
  IsSettled, IsSettled-left, IsSettled-right, terminal_update-IsSettled,
}

find-found :
    (test : QuestionEvidenceLink → Bool) (ls : List QuestionEvidenceLink) {l : QuestionEvidenceLink}
    → find test ls ≡ some l
    → (any test ls ≡ true)
      × ((good : QuestionEvidenceLink → Bool) → all good ls ≡ true → good l ≡ true)
find-found test [] e = cc
find-found test (x ∷ xs) e = elim (Bool-cases (test x)) [
  | inl b ↦
      (rw b refl, λ good h. subst (λ y. good y ≡ true) (some_inj (rw b at e)) (ground (arith, h)))
  | inr b ↦
      let (found, holds) = find-found test xs (rw b at e) in
      (rw b found, λ good h. holds good (ground (arith, h)))
]

-- Updates that the review accepts, one for each question of which it accepts any.
abbrev pub Agrees :
    ReviewContext → List InvestigationQuestion → Result PolicyError (List QuestionUpdate) → Type 0
Agrees c qs result =
    (us : List QuestionUpdate) × (result ≡ ok us) × All (IsAccepted c) us × All (IsSettled c us) qs

module _ (t : Texts) (strips : StripsBlanks t) (summaries : List String) (c : ReviewContext)
    (links : List QuestionEvidenceLink) (known : c.question_evidence_links ≡ some links)
    (available : all
        (λ (l : QuestionEvidenceLink). occurs l.evidence_id c.available_evidence_ids)
        links
      ≡ true)
    (filled : all (λ (l : QuestionEvidenceLink). is_filled l.evidence_id) links ≡ true) where
  abbrev Proposes : Result PolicyError (List QuestionUpdate) → Type 0
  Proposes result = (us : List QuestionUpdate) × (result ≡ ok us) × All (IsAccepted c) us

  closing-Proposes :
      (q : InvestigationQuestion) (ls : List QuestionEvidenceLink)
      → filter (is_applicable_to q) links ≡ ls
      → IsReady c q
      → is_subset (capability_of q.question_kind).closure_evidence_groups (satisfied_groups ls)
        ≡ true
      → is_some_item ls ≡ true
      → Proposes (built_update (closing_of t summaries q ls))
  closing-Proposes q [] e ready groups some_link = cc
  closing-Proposes q (l ∷ ls) e ready groups some_link =
      let good =
        subst (λ ks. all (λ (k : QuestionEvidenceLink). is_filled k.evidence_id) ks ≡ true) e
          (filter-all _ (is_applicable_to q) links filled) in
      let checked =
        closing_of-checked t strips summaries q l ls ready.is_named
          (linked-all is_filled (l ∷ ls) good) in
      (
        closing_of t summaries q (l ∷ ls) ∷ [],
        >>=-ok _ checked,
        (
          (
            checked,
            closing-accepted c q ready links known available filled
                (closing_of t summaries q (l ∷ ls)) refl refl
                (ap (λ ks. sorted_set (linked_evidence_ids ks)) (sym e))
                (subst
                  (λ ks.
                    is_subset (capability_of q.question_kind).closure_evidence_groups
                      (satisfied_groups ks)
                    ≡ true)
                  (sym e) groups),
          ),
          tt,
        ),
      )

  lacking-Proposes :
      (q : InvestigationQuestion)
      → IsReady c q
      → Proposes (by_lacking q (find (lacks_data q) links))
  unfolding check_update non_blank string_list
  lacking-Proposes q ready = elim (Option-cases (find (lacks_data q) links)) [
    | inl e ↦ rw e ([], refl, tt)
    | inr (l, e) ↦
        let (lacks, holds) = find-found (lacks_data q) links e in
        let named = holds (λ k. is_filled k.evidence_id) filled in
        let there = holds (λ k. occurs k.evidence_id c.available_evidence_ids) available in
        let u =
          unavailable_update q "The required Evidence source is unavailable."
            (l.evidence_id ∷ []) in
        let checked : check_update u ≡ ok tt = rw (ready.is_named, named) refl in
        rw e (
          u ∷ [],
          >>=-ok _ checked,
          (
            (
              checked,
              lack-accepted c q ready links known available filled u refl refl (rw there refl)
                  lacks,
            ),
            tt,
          ),
        )
  ]

  terminal_update-Proposes :
      (q : InvestigationQuestion) → IsReady c q → Proposes (terminal_update t summaries links q)
  unfolding terminal_update
  terminal_update-Proposes q ready =
      elim (Bool-cases (
        is_subset (capability_of q.question_kind).closure_evidence_groups
          (satisfied_groups (filter (is_applicable_to q) links))
        && is_some_item (filter (is_applicable_to q) links))) [
          | inl b ↦ rw b (
              closing-Proposes q (filter (is_applicable_to q) links) refl ready (ground (arith, b))
                (ground (arith, b)))
          | inr b ↦ rw b (lacking-Proposes q ready)
        ]

  each-Agrees :
      (qs : List InvestigationQuestion)
      → All (IsReady c) qs
      → Agrees c qs (each_update (terminal_update t summaries links) qs)
  each-Agrees [] h = ([], refl, tt, tt)
  each-Agrees (q ∷ qs) h =
      let (us, e, accepted) = terminal_update-Proposes q h.0 in
      let (vs, f, rest, settled) = each-Agrees qs h.1 in
      (
        us ++ vs,
        >>=-ok _ e ∙ >>=-ok _ f,
        All-append (IsAccepted c) us vs accepted rest,
        (
          IsSettled-left c us vs q (terminal_update-IsSettled c links known q h.0 t summaries e),
          All-map qs (λ p s. IsSettled-right c us vs p s) settled,
        ),
      )

  -- If `strip` leaves nothing or a text that is not blank, and the links point to evidence that there is, then the
  -- updates that Python proposes from the links for questions that are current, open, neither new nor targeted, and
  -- not known to be unsupported, are made without an error. The verdict of the review on each of them, taken alone,
  -- is to accept it; and if its verdict on any update at all of one of the questions is to accept it, Python
  -- proposes an update of that question.
  pub terminal_question_updates-IsAccepted :
      (open_questions : List InvestigationQuestion)
      → All (IsReady c) open_questions
      → Agrees c open_questions (
          terminal_question_updates t summaries open_questions c.available_evidence_ids
            (some links))
  unfolding terminal_question_updates
  terminal_question_updates-IsAccepted open_questions h = each-Agrees open_questions h
