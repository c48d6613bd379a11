-- ===== src/Questions/Accepted.antt =====
-- The review accepts the updates that Python itself proposes (core/yield_rca_core/next_action_planner.py and
-- question_update_review.py beside it).
use mathlib.Core.Path.{subst}
use autonomous_qwen_react.Prelude.{
  String, Bool, true, false, ◌&&◌, List, [], ◌∷◌, any, all, filter, map, joined, str_eq, get, some,
  ok, non_empty, ◌≡◌, refl, sym, ap, ◌∙◌, arith, inl, inr, Bool-cases,
}
use autonomous_qwen_react.Policy.Models.{non_empty as non_blank}
use autonomous_qwen_react.Policy.Models.{is_filled, string_list}
use autonomous_qwen_react.Questions.Kinds.{closed, unavailable, is_unavailable, occurs, is_subset}
use autonomous_qwen_react.Questions.Registry.{capability_of}
use autonomous_qwen_react.Questions.Models.{
  InvestigationQuestion, QuestionEvidenceLink, QuestionUpdate, check_update,
}
use autonomous_qwen_react.Questions.Decisions.{question_ids}
use autonomous_qwen_react.Questions.Scope.{Texts}
use autonomous_qwen_react.Questions.Verdicts.{
  ReviewContext, accept, applicable, applicable_links, linked_evidence_ids, satisfied_groups,
  has_unsupported_notice, has_unavailable_link, is_opened, existing_questions, judge_update,
  judge_status, by_links, by_lack,
}
use autonomous_qwen_react.Questions.Terminal.{
  sorted_set, join, is_applicable_to, lacks_data, summary_text, answer_or, closing_of,
}
use autonomous_qwen_react.Questions.Sets.{
  sorted_set-distinct, sorted_set-all, sorted_set-nonempty, is_filled-joined_left, without-none,
  subset_self, subset-sorted_set,
}

-- What `strip` leaves of a text, if anything, is not blank.
abbrev pub StripsBlanks : Texts → Type 0
StripsBlanks t = (s : String) → non_empty (t.strip s) ≡ true → is_filled (t.strip s) ≡ true

join-filled :
    (separator : String) (xs : List String)
    → all is_filled xs ≡ true
    → non_empty (join separator xs) ≡ true
    → is_filled (join separator xs) ≡ true
join-filled separator [] h k = cc
join-filled separator (x ∷ []) h k = ground (arith, h)
join-filled separator (x ∷ y ∷ xs) h k = is_filled-joined_left x _ (ground (arith, h))

module _ (t : Texts) (strips : StripsBlanks t) (summaries : List String) where
  lines-filled : (ss : List String) → all is_filled (filter non_empty (map t.strip ss)) ≡ true
  lines-filled [] = refl
  lines-filled (s ∷ ss) = elim (Bool-cases (non_empty (t.strip s))) [
    | inl e ↦ rw e (rw (strips s e) (lines-filled ss))
    | inr e ↦ rw e (lines-filled ss)
  ]

  answer_or-filled :
      (other : String) → is_filled other ≡ true → is_filled (answer_or t summaries other) ≡ true
  answer_or-filled other h = elim (Bool-cases (non_empty (summary_text t summaries))) [
    | inl e ↦
        rw e (join-filled " " (filter non_empty (map t.strip summaries)) (lines-filled summaries) e)
    | inr e ↦ rw e h
  ]

  pub closing_of-checked :
      (q : InvestigationQuestion) (l : QuestionEvidenceLink) (ls : List QuestionEvidenceLink)
      → is_filled q.question_id ≡ true
      → all is_filled (linked_evidence_ids (l ∷ ls)) ≡ true
      → check_update (closing_of t summaries q (l ∷ ls)) ≡ ok tt
  unfolding check_update non_blank string_list
  closing_of-checked q l ls named filled =
      let answered =
        answer_or-filled
          (joined "The applicable Evidence supports this Question: "
            (join ", " (sorted_set (linked_evidence_ids (l ∷ ls)))))
          refl in
      let several = sorted_set-nonempty l.evidence_id (linked_evidence_ids ls) in
      rw
        (
          named,
          sorted_set-all is_filled (linked_evidence_ids (l ∷ ls)) filled,
          sorted_set-distinct (linked_evidence_ids (l ∷ ls)),
          answered,
          several,
        )
        refl

-- A filtered part, tested.
pub filter-all :
    (test keep : QuestionEvidenceLink → Bool) (ls : List QuestionEvidenceLink)
    → all test ls ≡ true
    → all test (filter keep ls) ≡ true
filter-all test keep [] h = refl
filter-all test keep (l ∷ ls) h = elim (Bool-cases (keep l)) [
  | inl e ↦ rw e (ground (arith, h, filter-all test keep ls))
  | inr e ↦ rw e (filter-all test keep ls (ground (arith, h)))
]

all-linked :
    (test : String → Bool) (ls : List QuestionEvidenceLink)
    → all test (linked_evidence_ids ls) ≡ true
    → all (λ l. test l.evidence_id) ls ≡ true
all-linked test [] h = refl
all-linked test (l ∷ ls) h = ground (arith, h, all-linked test ls)

pub linked-all :
    (test : String → Bool) (ls : List QuestionEvidenceLink)
    → all (λ l. test l.evidence_id) ls ≡ true
    → all test (linked_evidence_ids ls) ≡ true
linked-all test [] h = refl
linked-all test (l ∷ ls) h = ground (arith, h, linked-all test ls)

-- The links that bear on a question are those that bear on an update of it that cites all of their evidence.
applicable_links-cited :
    (q : InvestigationQuestion) (u : QuestionUpdate) (ls : List QuestionEvidenceLink)
    → u.question_id ≡ q.question_id
    → all (λ l. occurs l.evidence_id u.evidence_ids) (filter (is_applicable_to q) ls) ≡ true
    → applicable_links u ls ≡ filter (is_applicable_to q) ls
applicable_links-cited q u [] e h = refl
applicable_links-cited q u (l ∷ ls) e h = elim (Bool-cases (is_applicable_to q l)) [
  | inl a ↦
      let h' : (occurs l.evidence_id u.evidence_ids
            && all (λ k. occurs k.evidence_id u.evidence_ids) (filter (is_applicable_to q) ls))
          ≡ true =
        rw a at h in
      let both : applicable u l ≡ true = ground (arith, a, ap (str_eq l.question_id) e, h') in
      rw (both, a) (ap (λ ks. l ∷ ks) (applicable_links-cited q u ls e (ground (arith, h'))))
  | inr a ↦
      let both : applicable u l ≡ false = ground (arith, a, ap (str_eq l.question_id) e) in
      rw (both, a) (applicable_links-cited q u ls e (rw a at h))
]

-- What a question needs for its updates to be accepted: it is current, open, and neither new nor targeted, and no
-- notice says that its kind is not supported.
pub record IsReady (c : ReviewContext) (q : InvestigationQuestion) : Type 0 where
  pub is_named : is_filled q.question_id ≡ true
  pub is_current : get q.question_id (existing_questions c.questions []) ≡ some q
  pub is_still_open : is_opened q.status ≡ true
  pub is_not_new : occurs q.question_id (question_ids c.decision.new_questions) ≡ false
  pub is_not_targeted : occurs q.question_id c.decision.target_question_ids ≡ false
  pub is_not_noticed : has_unsupported_notice c q ≡ false

abbrev pub IsAccepted : ReviewContext → QuestionUpdate → Type 0
IsAccepted c u = (check_update u ≡ ok tt) × (judge_update c u ≡ accept u)

module _ (c : ReviewContext) (q : InvestigationQuestion) (ready : IsReady c q) where
  -- An update of such a question is judged by its status, if its evidence is there.
  judge_update-ready :
      (u : QuestionUpdate)
      → u.question_id ≡ q.question_id
      → is_subset u.evidence_ids c.available_evidence_ids ≡ true
      → judge_update c u ≡ judge_status c q u u.status
  unfolding judge_update
  judge_update-ready u e available =
      let new =
        subst (λ i. occurs i (question_ids c.decision.new_questions) ≡ false) (sym e)
          ready.is_not_new in
      let found =
        subst (λ i. get i (existing_questions c.questions []) ≡ some q) (sym e) ready.is_current in
      let target =
        subst (λ i. occurs i c.decision.target_question_ids ≡ false) (sym e)
          ready.is_not_targeted in
      rw (new, found, ready.is_still_open, target, available) refl

  module _ (links : List QuestionEvidenceLink) (known : c.question_evidence_links ≡ some links)
      (available : all
          (λ (l : QuestionEvidenceLink). occurs l.evidence_id c.available_evidence_ids)
          links
        ≡ true)
      (filled : all (λ (l : QuestionEvidenceLink). is_filled l.evidence_id) links ≡ true) where
    -- An answer that cites the evidence of all links that bear on the question, which support every group.
    pub closing-accepted :
        (u : QuestionUpdate)
        → u.question_id ≡ q.question_id
        → u.status ≡ closed
        → u.evidence_ids ≡ sorted_set (linked_evidence_ids (filter (is_applicable_to q) links))
        → is_subset
            (capability_of q.question_kind).closure_evidence_groups
            (satisfied_groups (filter (is_applicable_to q) links))
          ≡ true
        → judge_update c u ≡ accept u
    closing-accepted u e s cites groups =
        let ls = filter (is_applicable_to q) links in
        let there : is_subset u.evidence_ids c.available_evidence_ids ≡ true =
          subst (λ ids. is_subset ids c.available_evidence_ids ≡ true) (sym cites)
            (sorted_set-all (λ i. occurs i c.available_evidence_ids) (linked_evidence_ids ls)
              (linked-all (λ i. occurs i c.available_evidence_ids) ls
                (filter-all _ (is_applicable_to q) links available))) in
        let cited : all (λ (l : QuestionEvidenceLink). occurs l.evidence_id u.evidence_ids) ls
            ≡ true =
          subst (λ ids. all (λ (l : QuestionEvidenceLink). occurs l.evidence_id ids) ls ≡ true)
            (sym cites)
            (all-linked (λ i. occurs i (sorted_set (linked_evidence_ids ls))) ls
              (subset-sorted_set (linked_evidence_ids ls))) in
        let same = applicable_links-cited q u links e cited in
        let covered : is_subset u.evidence_ids (linked_evidence_ids ls) ≡ true =
          subst (λ ids. is_subset ids (linked_evidence_ids ls) ≡ true) (sym cites)
            (sorted_set-all (λ i. occurs i (linked_evidence_ids ls)) (linked_evidence_ids ls)
              (subset_self (linked_evidence_ids ls))) in
        let linked : by_links q u (some links) ≡ accept u =
          rw
            (
              same,
              without-none u.evidence_ids (linked_evidence_ids ls) covered,
              without-none (capability_of q.question_kind).closure_evidence_groups
                  (satisfied_groups ls) groups,
            )
            refl in
        judge_update-ready u e there
        ∙ subst (λ s. judge_status c q u s ≡ accept u) (sym s)
            (rw ready.is_not_noticed (subst (λ o. by_links q u o ≡ accept u) (sym known) linked))

    -- A lack of data that a link of the question states.
    pub lack-accepted :
        (u : QuestionUpdate)
        → u.question_id ≡ q.question_id
        → u.status ≡ unavailable
        → is_subset u.evidence_ids c.available_evidence_ids ≡ true
        → any (lacks_data q) links ≡ true
        → judge_update c u ≡ accept u
    lack-accepted u e s there lacks =
        let stated : has_unavailable_link u links ≡ true =
          subst
            (λ i.
              any
                (λ (l : QuestionEvidenceLink). str_eq l.question_id i && is_unavailable l.relation)
                links
              ≡ true)
            (sym e) lacks in
        let linked : by_lack c q u (some links) ≡ accept u =
          rw (stated, ready.is_not_noticed) refl in
        judge_update-ready u e there
        ∙ subst (λ s. judge_status c q u s ≡ accept u) (sym s)
            (subst (λ o. by_lack c q u o ≡ accept u) (sym known) linked)
