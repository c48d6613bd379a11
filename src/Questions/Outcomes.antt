-- ===== src/Questions/Outcomes.antt =====
-- The outcome of `review_question_updates` (core/yield_rca_core/question_update_review.py) passes the
-- checks of its dataclasses.
use mathlib.Core.Path.{subst}
use autonomous_qwen_react.Prelude.{
  ℕ, ◌≤◌, map, String, true, false, not, ◌&&◌, List, [], ◌∷◌, filter, length, ltb, str_eq, eq_refl,
  Option, none, some, ok, All, All-map, All-map, if◌then◌else◌, ◌≡◌, refl, sym, ◌∙◌, arith, inl,
  inr, Bool-cases, >>=-eq-ok, >>=-ok, raise_if-eq-ok, has_duplicates,
}
use autonomous_qwen_react.Json.{Json, Items, null, number, text, instant, array, object}
use autonomous_qwen_react.Policy.Models.{is_filled, non_empty}
use autonomous_qwen_react.Questions.Kinds.{occurs, meets, is_some_item}
use autonomous_qwen_react.Questions.Models.{QuestionUpdate, is_present}
use autonomous_qwen_react.Questions.Decisions.{
  PlannerDecision, DecisionType, act, stop, QuestionUpdateReasonCode, is_accepting, check_review,
  updated_ids, question_ids, accepted_question_ids, check_outcome, check_planner_decision,
  check_core, check_updates, check_type, check_overlap, same_texts, PlannerDecisionOutcome,
  UpdatesSource, qwen, malformed_collection, too_many_updates,
}
use autonomous_qwen_react.Questions.Verdicts.{ReviewContext, reject, raw_ids, is_duplicate}
use autonomous_qwen_react.Questions.Justified.{IsJustified}
use autonomous_qwen_react.Questions.Review.{
  review_of, build_review, items_length, refuse, conclude_review, review_question_updates,
  max_initial_questions,
}
use autonomous_qwen_react.Questions.Reviewed.{
  updates_of, reviews_of, review_each-ok, accepted_question_ids-reviews, reviews-decision,
  length-reviews, update_index-reviews, indices, updates-All, updates-raw_ids, no_duplicates,
}

same_texts_refl : (xs ys : List String) → xs ≡ ys → same_texts xs ys ≡ true
same_texts_refl xs ys e = subst (λ y. same_texts xs y ≡ true) e (go xs)
  where
    go : (zs : List String) → same_texts zs zs ≡ true
    go [] = refl
    go (z ∷ zs) = rw (eq_refl z) (go zs)

meets-none :
    (ys : List String) (us : List QuestionUpdate)
    → All (λ (u : QuestionUpdate). occurs u.question_id ys ≡ false) us
    → meets (updated_ids us) ys ≡ false
meets-none ys [] h = refl
meets-none ys (u ∷ us) h = rw h.0 (meets-none ys us h.1)

All_ids :
    (ids : List String) (us : List QuestionUpdate)
    → All (λ (u : QuestionUpdate). is_duplicate ids (some u.question_id) ≡ false) us
    → All (λ i. length (filter (str_eq i) ids) ≤ 1) (updated_ids us)
All_ids ids [] h = tt
All_ids ids (u ∷ us) h = (ground (arith, h.0), All_ids ids us h.1)

-- The core of the decision has passed its checks.
abbrev pub WithUpdates : PlannerDecision → List QuestionUpdate → PlannerDecision
WithUpdates d us = record d { question_updates = us }

check_type-updates :
    (d : PlannerDecision) (us : List QuestionUpdate) (t : DecisionType)
    → check_type (WithUpdates d us) t ≡ check_type d t
check_type-updates d us act = refl
check_type-updates d us stop = refl

check_overlap-ok :
    (d : PlannerDecision) (us : List QuestionUpdate) (t : DecisionType)
    → meets (updated_ids us) d.target_question_ids ≡ false
    → check_overlap (WithUpdates d us) t ≡ ok tt
check_overlap-ok d us act h = rw h refl
check_overlap-ok d us stop h = refl

-- A decision that passed its checks passes them with other updates, if these are of different
-- questions, none of which is new or a target.
check_planner_decision-updates :
    (d : PlannerDecision) (us : List QuestionUpdate)
    → check_planner_decision d ≡ ok tt
    → has_duplicates (updated_ids us) ≡ false
    → meets (updated_ids us) (question_ids d.new_questions) ≡ false
    → meets (updated_ids us) d.target_question_ids ≡ false
    → check_planner_decision (WithUpdates d us) ≡ ok tt
unfolding check_planner_decision
check_planner_decision-updates d us e distinct new target =
    let (_, core, e1) = >>=-eq-ok (check_core d) _ e in
    let (_, _, e2) = >>=-eq-ok (check_updates d) _ e1 in
    let (_, typed, e3) = >>=-eq-ok (check_type d d.decision_type) _ e2 in
    >>=-ok {first = check_core (WithUpdates d us)} _ core
    ∙ >>=-ok {first = check_updates (WithUpdates d us)} _ (rw (distinct, new) refl)
    ∙ >>=-ok {first = check_type (WithUpdates d us) d.decision_type} _
        (check_type-updates d us d.decision_type ∙ typed)
    ∙ check_overlap-ok d us d.decision_type target

-- The indices that the reviews carry: those of the updates, in their order, and none for a collection that is refused
-- as a whole.
abbrev pub review_indices : Json → List (Option ℕ)
review_indices (array xs) =
    if ltb max_initial_questions (items_length xs) then none ∷ [] else indices 0 (items_length xs)
review_indices _ = none ∷ []

-- What the outcome of a review has: the core of the decision unchanged, updates with all behind them that they
-- need, of which the accepting reviews tell, and a review at the index of every update.
abbrev pub IsReviewed : ReviewContext → Json → PlannerDecisionOutcome → Type 0
IsReviewed c j o =
    (o.decision ≡ WithUpdates c.decision o.decision.question_updates)
    × All (IsJustified c) o.decision.question_updates
    × (accepted_question_ids o.question_update_reviews ≡ updated_ids o.decision.question_updates)
    × (map (λ r. r.update_index) o.question_update_reviews ≡ review_indices j)

abbrev pub Reviews : ReviewContext → Json → Type 0
Reviews c j =
    (o : PlannerDecisionOutcome) × (review_question_updates c j ≡ ok o)
    × (check_planner_decision o.decision ≡ ok tt)
    × IsReviewed c j o

abbrev pub outcome_of : ReviewContext → Items → PlannerDecisionOutcome
outcome_of c xs =
    let us = updates_of c (raw_ids xs) xs in
    record {
      decision = WithUpdates c.decision us;
      question_update_reviews = reviews_of c (raw_ids xs) 0 xs;
      raw_question_update_count = items_length xs;
      decision_proposed_by = "qwen";
      question_updates_source = if is_some_item us then some qwen else none;
    }

abbrev pub refused : PlannerDecision → QuestionUpdateReasonCode → ℕ → PlannerDecisionOutcome
refused d code count = record {
  decision = d;
  question_update_reviews = review_of d none (reject code none none) ∷ [];
  raw_question_update_count = count;
  decision_proposed_by = "qwen";
  question_updates_source = none;
}

module _ (c : ReviewContext) (checked : check_planner_decision c.decision ≡ ok tt) where
  decision_id-filled : is_filled c.decision.decision_id ≡ true
  unfolding check_planner_decision non_empty
  decision_id-filled =
      let (_, core, _) = >>=-eq-ok (check_core c.decision) _ checked in
      ground (arith, (raise_if-eq-ok (not (is_filled c.decision.decision_id)) _ _ core).0)

  check_outcome-ok :
      (xs : Items) (source : Option UpdatesSource)
      → (is_present source && not (is_some_item (updates_of c (raw_ids xs) xs))) ≡ false
      → check_outcome (record {
        decision = WithUpdates c.decision (updates_of c (raw_ids xs) xs);
        question_update_reviews = reviews_of c (raw_ids xs) 0 xs;
        raw_question_update_count = items_length xs;
        decision_proposed_by = "qwen";
        question_updates_source = source;
      })
        ≡ ok tt
  unfolding check_outcome
  check_outcome-ok xs source h =
      let n = decision_id-filled in
      rw
        (
          h,
          reviews-decision c (raw_ids xs) n 0 xs,
          same_texts_refl _ _ (accepted_question_ids-reviews c (raw_ids xs) n 0 xs),
          length-reviews c (raw_ids xs) n 0 xs,
        )
        (ground arith)

  source_of-checked :
      (us : List QuestionUpdate)
      → (is_present (if is_some_item us then some qwen else none) && not (is_some_item us)) ≡ false
  source_of-checked [] = refl
  source_of-checked (u ∷ us) = refl

  updates-checked :
      (xs : Items)
      → check_planner_decision (WithUpdates c.decision (updates_of c (raw_ids xs) xs)) ≡ ok tt
  updates-checked xs =
      let us = updates_of c (raw_ids xs) xs in
      let h = updates-All c (raw_ids xs) xs in
      check_planner_decision-updates c.decision us checked
        (no_duplicates (updated_ids us) (raw_ids xs) (λ i. updates-raw_ids c (raw_ids xs) i xs)
          (All_ids (raw_ids xs) us (All-map us (λ u p. p.0) h)))
        (meets-none (question_ids c.decision.new_questions) us
          (All-map us (λ u p. p.1.is_not_new) h))
        (meets-none c.decision.target_question_ids us (All-map us (λ u p. p.1.is_not_targeted) h))

  items-Reviews :
      (xs : Items) → ltb max_initial_questions (items_length xs) ≡ false → Reviews c (array xs)
  unfolding review_question_updates conclude_review
  items-Reviews xs few =
      let n = decision_id-filled in
      (
        outcome_of c xs,
        rw few (
            >>=-ok _ (review_each-ok c (raw_ids xs) n 0 xs)
            ∙ >>=-ok _ (updates-checked xs)
            ∙ >>=-ok _ (check_outcome-ok xs _ (source_of-checked (updates_of c (raw_ids xs) xs)))),
        updates-checked xs,
        (
          refl,
          All-map (updates_of c (raw_ids xs) xs) (λ u p. p.1) (updates-All c (raw_ids xs) xs),
          accepted_question_ids-reviews c (raw_ids xs) n 0 xs,
          rw few (update_index-reviews c (raw_ids xs) n 0 xs),
        ),
      )

  module _ (clean : c.decision.question_updates ≡ []) where
    refuse-Reviews :
        (j : Json) (code : QuestionUpdateReasonCode) (count : ℕ)
        → is_accepting code ≡ false
        → 1 ≤ count
        → review_indices j ≡ none ∷ []
        → review_question_updates c j ≡ refuse c.decision code count
        → Reviews c j
    unfolding refuse build_review check_review check_outcome non_empty
    refuse-Reviews j code count a n r e = (
      refused c.decision code count,
      e ∙ rw (decision_id-filled, a, clean, eq_refl c.decision.decision_id) (ground (arith, n)),
      checked,
      (refl, rw clean tt, rw clean refl, sym r),
    )

    -- A review of updates, of a decision that passed its checks and has none yet, returns whatever the
    -- language model proposed; the decision with the accepted updates passes its checks, and differs in
    -- nothing else. Behind each of them is an open question that is neither new nor targeted, evidence that there is,
    -- and what its status asks for: for an answer, no notice against it and, where the review knows the links, cited
    -- evidence that bears on the question and a supporting link for every closing group; for a lack of data, where the
    -- review knows the links, a link or a notice that states it. The accepting reviews are those of these
    -- updates; the reviews of a list that is not too long carry the indices of all its updates, in order, and
    -- anything else gets one review without an index.
    pub review_question_updates-IsReviewed : (j : Json) → Reviews c j
    unfolding review_question_updates
    review_question_updates-IsReviewed (array xs) =
        elim (Bool-cases (ltb max_initial_questions (items_length xs))) [
          | inl e ↦
              refuse-Reviews (array xs) too_many_updates (items_length xs) refl (ground (arith, e))
                (rw e refl) (rw e refl)
          | inr e ↦ items-Reviews xs e
        ]
    review_question_updates-IsReviewed null =
        refuse-Reviews null malformed_collection 1 refl (omega arith) refl refl
    review_question_updates-IsReviewed (Json.bool b) =
        refuse-Reviews (Json.bool b) malformed_collection 1 refl (omega arith) refl refl
    review_question_updates-IsReviewed (Json.float z p) =
        refuse-Reviews (Json.float z p) malformed_collection 1 refl (omega arith) refl refl
    review_question_updates-IsReviewed (number n) =
        refuse-Reviews (number n) malformed_collection 1 refl (omega arith) refl refl
    review_question_updates-IsReviewed (text s) =
        refuse-Reviews (text s) malformed_collection 1 refl (omega arith) refl refl
    review_question_updates-IsReviewed (instant t) =
        refuse-Reviews (instant t) malformed_collection 1 refl (omega arith) refl refl
    review_question_updates-IsReviewed (object fs) =
        refuse-Reviews (object fs) malformed_collection 1 refl (omega arith) refl refl
