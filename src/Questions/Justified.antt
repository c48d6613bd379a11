-- ===== src/Questions/Justified.antt =====
-- What an accepted update of a question has behind it, and what a rejected one is reported as
-- (core/yield_rca_core/question_update_review.py).
use mathlib.Core.Path.{subst}
use autonomous_qwen_react.Prelude.{
  String, Bool, true, false, not, ◌&&◌, ◌||◌, List, [], ◌∷◌, any, all, str_eq, get, Option, none,
  some, ◌≡◌, refl, sym, arith, ◌⊎◌, inl, inr, Bool-cases, Option-cases,
}
use autonomous_qwen_react.Policy.Models.{is_filled}
use autonomous_qwen_react.Questions.Kinds.{
  EvidenceGapStatus, opened, closed, unavailable, gap_status_value, is_supporting, occurs,
  is_subset, without, is_some_item,
}
use autonomous_qwen_react.Questions.Registry.{capability_of}
use autonomous_qwen_react.Questions.Models.{
  InvestigationQuestion, QuestionEvidenceLink, QuestionUpdate,
}
use autonomous_qwen_react.Questions.Decisions.{QuestionUpdateReasonCode, is_accepting, question_ids}
use autonomous_qwen_react.Questions.Verdicts.{
  ReviewContext, Verdict, reject, accept, applicable, applicable_links, linked_evidence_ids,
  satisfied_groups, rejected_update, has_unsupported_notice, by_links, judge_closed,
  has_unavailable_link, by_lack, judge_unavailable, judge_status, is_opened, judge_current,
  existing_questions, judge_update,
}

-- A link of this question, to evidence that the update cites, that supports a group.
abbrev pub is_support : QuestionUpdate → String → QuestionEvidenceLink → Bool
is_support u group l =
    applicable u l && is_supporting l.relation && str_eq group l.matched_evidence_group

-- Every cited piece of evidence bears on the question, and every group that its kind asks for is supported.
abbrev pub IsCovered :
    InvestigationQuestion → QuestionUpdate → Option (List QuestionEvidenceLink) → Type 0
IsCovered q u none = Unit
IsCovered q u (some links) =
    (all (λ i. any (λ l. applicable u l && str_eq i l.evidence_id) links) u.evidence_ids ≡ true)
    × (all (λ g. any (is_support u g) links) (capability_of q.question_kind).closure_evidence_groups
        ≡ true)

-- The lack of data is stated by a link, or the kind is known not to be supported.
abbrev pub IsUnavailable :
    ReviewContext
    → InvestigationQuestion
    → QuestionUpdate
    → Option (List QuestionEvidenceLink)
    → Type 0
IsUnavailable c q u none = Unit
IsUnavailable c q u (some links) =
    (has_unsupported_notice c q || has_unavailable_link u links) ≡ true

abbrev pub IsAnswered :
    ReviewContext → InvestigationQuestion → QuestionUpdate → EvidenceGapStatus → Type 0
IsAnswered c q u opened = ⊥
IsAnswered c q u closed =
    (has_unsupported_notice c q ≡ false) × IsCovered q u c.question_evidence_links
IsAnswered c q u unavailable = IsUnavailable c q u c.question_evidence_links

-- What is behind an accepted update: a question that is open, that the decision neither creates nor
-- still targets, evidence that there is, and what its status asks for.
pub record IsJustified (c : ReviewContext) (u : QuestionUpdate) : Type 0 where
  pub question : InvestigationQuestion
  pub is_current : get u.question_id (existing_questions c.questions []) ≡ some question
  pub is_still_open : is_opened question.status ≡ true
  pub is_not_new : occurs u.question_id (question_ids c.decision.new_questions) ≡ false
  pub is_not_targeted : occurs u.question_id c.decision.target_question_ids ≡ false
  pub is_available : is_subset u.evidence_ids c.available_evidence_ids ≡ true
  pub is_answered : IsAnswered c question u u.status

abbrev pub FilledIfGiven : Option String → Type 0
FilledIfGiven none = Unit
FilledIfGiven (some s) = is_filled s ≡ true

-- The verdict on an update that passed its checks.
abbrev pub IsFair : ReviewContext → QuestionUpdate → Verdict → Type 0
IsFair c u (reject code question_id status) =
    (is_accepting code ≡ false) × FilledIfGiven question_id × FilledIfGiven status
IsFair c u (accept w) = (w ≡ u) × IsJustified c u

pub filled_status : (s : EvidenceGapStatus) → is_filled (gap_status_value s) ≡ true
filled_status opened = refl
filled_status closed = refl
filled_status unavailable = refl

none_without :
    (xs ys : List String) (test : String → Bool)
    → ((x : String) → occurs x ys ≡ true → test x ≡ true)
    → is_some_item (without xs ys) ≡ false
    → all test xs ≡ true
none_without [] ys test f h = refl
none_without (x ∷ xs) ys test f h = elim (Bool-cases (occurs x ys)) [
  | inl e ↦ rw (f x e) (none_without xs ys test f (rw e at h))
  | inr e ↦ absurd (ground (arith, e, h))
]

cited :
    (u : QuestionUpdate) (links : List QuestionEvidenceLink) (x : String)
    → occurs x (linked_evidence_ids (applicable_links u links)) ≡ true
    → any (λ l. applicable u l && str_eq x l.evidence_id) links ≡ true
cited u [] x h = cc
cited u (l ∷ ls) x h = elim (Bool-cases (applicable u l)) [
  | inl e ↦ ground (arith, e, h, cited u ls x)
  | inr e ↦ ground (arith, e, h, cited u ls x)
]

supported :
    (u : QuestionUpdate) (links : List QuestionEvidenceLink) (g : String)
    → occurs g (satisfied_groups (applicable_links u links)) ≡ true
    → any (is_support u g) links ≡ true
supported u [] g h = cc
supported u (l ∷ ls) g h = elim (Bool-cases (applicable u l)) [
  | inl e ↦ elim (Bool-cases (is_supporting l.relation)) [
    | inl s ↦ ground (arith, e, s, h, supported u ls g)
    | inr s ↦ ground (arith, e, s, h, supported u ls g)
  ]
  | inr e ↦ ground (arith, e, h, supported u ls g)
]

module _ (c : ReviewContext) (u : QuestionUpdate) (filled : is_filled u.question_id ≡ true) where
  rejected_update-IsFair :
      (code : QuestionUpdateReasonCode)
      → is_accepting code ≡ false
      → IsFair c u (rejected_update code u)
  rejected_update-IsFair code h = (h, filled, filled_status u.status)

  module _ (q : InvestigationQuestion)
      (answered : IsAnswered c q u u.status → IsJustified c u) where
    by_links-IsFair :
        u.status ≡ closed
        → has_unsupported_notice c q ≡ false
        → IsFair c u (by_links q u c.question_evidence_links)
    by_links-IsFair s n = go c.question_evidence_links refl
      where
        justified :
            (o : Option (List QuestionEvidenceLink))
            → c.question_evidence_links ≡ o
            → IsCovered q u o
            → IsJustified c u
        justified o e h = answered (rw s (n, subst (IsCovered q u) (sym e) h))

        go :
            (o : Option (List QuestionEvidenceLink))
            → c.question_evidence_links ≡ o
            → IsFair c u (by_links q u o)
        go none e = (refl, justified none e tt)
        go (some ls) e =
            elim (Bool-cases (
              is_some_item
                (without u.evidence_ids (linked_evidence_ids (applicable_links u ls))))) [
                  | inl h ↦
                      rw h (
                        rejected_update-IsFair QuestionUpdateReasonCode.evidence_not_applicable
                          refl)
                  | inr h ↦
                      rw h
                        (elim (Bool-cases (
                          is_some_item (
                            without (capability_of q.question_kind).closure_evidence_groups
                              (satisfied_groups (applicable_links u ls))))) [
                                | inl k ↦ rw k (
                                    rejected_update-IsFair
                                      QuestionUpdateReasonCode.insufficient_evidence_coverage refl)
                                | inr k ↦ rw k (
                                  refl,
                                  justified (some ls) e (
                                    none_without u.evidence_ids _ _ (cited u ls) h,
                                    none_without
                                        (capability_of q.question_kind).closure_evidence_groups _ _
                                        (supported u ls) k,
                                  ),
                                )
                              ])
                ]

    judge_closed-IsFair : u.status ≡ closed → IsFair c u (judge_closed c q u)
    judge_closed-IsFair s = elim (Bool-cases (has_unsupported_notice c q)) [
      | inl h ↦ rw h (rejected_update-IsFair QuestionUpdateReasonCode.unsupported_capability refl)
      | inr h ↦ rw h (by_links-IsFair s h)
    ]

    judge_unavailable-IsFair : u.status ≡ unavailable → IsFair c u (judge_unavailable c q u)
    judge_unavailable-IsFair s = go c.question_evidence_links refl
      where
        justified :
            (o : Option (List QuestionEvidenceLink))
            → c.question_evidence_links ≡ o
            → IsUnavailable c q u o
            → IsJustified c u
        justified o e h = answered (rw s (subst (IsUnavailable c q u) (sym e) h))

        go :
            (o : Option (List QuestionEvidenceLink))
            → c.question_evidence_links ≡ o
            → IsFair c u (by_lack c q u o)
        go none e = (refl, justified none e tt)
        go (some ls) e =
            elim (Bool-cases
              (not (has_unsupported_notice c q) && not (has_unavailable_link u ls))) [
                | inl h ↦ rw h (
                    rejected_update-IsFair QuestionUpdateReasonCode.missing_unavailability_evidence
                      refl)
                | inr h ↦ rw h (refl, justified (some ls) e (ground (arith, h)))
              ]

    judge_status-IsFair :
        (u.status ≡ closed) ⊎ (u.status ≡ unavailable) → IsFair c u (judge_status c q u u.status)
    judge_status-IsFair (inl e) =
        subst (λ s. IsFair c u (judge_status c q u s)) (sym e) (judge_closed-IsFair e)
    judge_status-IsFair (inr e) =
        subst (λ s. IsFair c u (judge_status c q u s)) (sym e) (judge_unavailable-IsFair e)

  module _ (terminal : (u.status ≡ closed) ⊎ (u.status ≡ unavailable))
      (new : occurs u.question_id (question_ids c.decision.new_questions) ≡ false) where
    judge_current-IsFair :
        (q : InvestigationQuestion)
        → get u.question_id (existing_questions c.questions []) ≡ some q
        → IsFair c u (judge_current c u q)
    judge_current-IsFair q found = elim (Bool-cases (is_opened q.status)) [
      | inr o ↦ rw o (rejected_update-IsFair QuestionUpdateReasonCode.terminal_question refl)
      | inl o ↦ rw o (elim (Bool-cases (occurs u.question_id c.decision.target_question_ids)) [
        | inl t ↦ rw t (rejected_update-IsFair QuestionUpdateReasonCode.target_overlap refl)
        | inr t ↦ rw t (elim (Bool-cases (is_subset u.evidence_ids c.available_evidence_ids)) [
          | inr a ↦ rw a (rejected_update-IsFair QuestionUpdateReasonCode.unknown_evidence refl)
          | inl a ↦ rw a (
              judge_status-IsFair q
                (λ h. record {
                  question = q;
                  is_current = found;
                  is_still_open = o;
                  is_not_new = new;
                  is_not_targeted = t;
                  is_available = a;
                  is_answered = h;
                })
                terminal)
        ])
      ])
    ]

  pub judge_update-IsFair :
      (u.status ≡ closed) ⊎ (u.status ≡ unavailable) → IsFair c u (judge_update c u)
  unfolding judge_update
  judge_update-IsFair terminal =
      elim (Bool-cases (occurs u.question_id (question_ids c.decision.new_questions))) [
        | inl n ↦ rw n (rejected_update-IsFair QuestionUpdateReasonCode.new_question_conflict refl)
        | inr n ↦
            rw n (elim (Option-cases (get u.question_id (existing_questions c.questions []))) [
              | inl e ↦ rw e (rejected_update-IsFair QuestionUpdateReasonCode.unknown_question refl)
              | inr e ↦ rw e.1 (judge_current-IsFair terminal n e.0 e.1)
            ])
      ]
