-- ===== src/Questions/Review.antt =====
-- `review_question_updates` of core/yield_rca_core/question_update_review.py, over the verdicts on the
-- updates. The texts of the reasons are left out.
use autonomous_qwen_react.Prelude.{
  ℕ, suc, String, List, [], ◌∷◌, ltb, Option, none, some, Result, ok, ◌>>=◌, ◌>>◌, if◌then◌else◌,
}
use autonomous_qwen_react.Json.{Json, Items, array, item, end}
use autonomous_qwen_react.Policy.Models.{PolicyError}
use autonomous_qwen_react.Questions.Kinds.{gap_status_value, is_some_item}
use autonomous_qwen_react.Questions.Models.{QuestionUpdate}
use autonomous_qwen_react.Questions.Decisions.{
  PlannerDecision, accepted, rejected, QuestionUpdateReasonCode, is_accepted, malformed_collection,
  too_many_updates, QuestionUpdateReview, qwen, PlannerDecisionOutcome, check_review,
  check_planner_decision, check_outcome,
}
use autonomous_qwen_react.Questions.Verdicts.{
  ReviewContext, Verdict, reject, accept, raw_ids, judge_raw,
}

-- `MAX_INITIAL_QUESTIONS`
abbrev pub max_initial_questions : ℕ
max_initial_questions = 5

abbrev pub review_of : PlannerDecision → Option ℕ → Verdict → QuestionUpdateReview
review_of d index (reject code question_id status) = record {
  decision_id = d.decision_id;
  disposition = rejected;
  reason_code = code;
  update_index = index;
  question_id = question_id;
  claimed_status = status;
}
review_of d index (accept u) = record {
  decision_id = d.decision_id;
  disposition = accepted;
  reason_code = is_accepted;
  update_index = index;
  question_id = some u.question_id;
  claimed_status = some (gap_status_value u.status);
}

-- `_review`
unfoldable pub build_review :
    PlannerDecision → Option ℕ → Verdict → Result PolicyError QuestionUpdateReview
build_review d index v = do check_review (review_of d index v); ok (review_of d index v)

abbrev pub accepted_update : Verdict → List QuestionUpdate → List QuestionUpdate
accepted_update (reject code question_id status) us = us
accepted_update (accept u) us = u ∷ us

-- The accepted updates and the reviews.
abbrev pub Reviewed : Type 0
Reviewed = List QuestionUpdate × List QuestionUpdateReview

-- The loop over the updates from `index` on.
unfoldable pub review_each : ReviewContext → List String → ℕ → Items → Result PolicyError Reviewed
review_each c ids index end = ok ([], [])
review_each c ids index (item x xs) = do
  review ← build_review c.decision (some index) (judge_raw c ids x)
  rest ← review_each c ids (suc index) xs
  ok (accepted_update (judge_raw c ids x) rest.0, review ∷ rest.1)

abbrev pub items_length : Items → ℕ
items_length end = 0
items_length (item x xs) = suc (items_length xs)

-- The one review of a collection that is refused.
unfoldable pub refuse :
    PlannerDecision → QuestionUpdateReasonCode → ℕ → Result PolicyError PlannerDecisionOutcome
refuse d code count = do
  review ← build_review d none (reject code none none)
  let o : PlannerDecisionOutcome = record {
    decision = d;
    question_update_reviews = review ∷ [];
    raw_question_update_count = count;
    decision_proposed_by = "qwen";
    question_updates_source = none;
  }
  check_outcome o
  ok o

-- The outcome of the loop, with the checks of the two dataclasses.
unfoldable pub conclude_review :
    PlannerDecision → ℕ → Reviewed → Result PolicyError PlannerDecisionOutcome
conclude_review d count (us, reviews) = do
  let o : PlannerDecisionOutcome = record {
    decision = record d { question_updates = us };
    question_update_reviews = reviews;
    raw_question_update_count = count;
    decision_proposed_by = "qwen";
    question_updates_source = if is_some_item us then some qwen else none;
  }
  check_planner_decision o.decision
  check_outcome o
  ok o

abbrev pub review_items : ReviewContext → Items → Result PolicyError PlannerDecisionOutcome
review_items c xs =
    if ltb max_initial_questions (items_length xs)
    then refuse c.decision too_many_updates (items_length xs)
    else review_each c (raw_ids xs) 0 xs >>= conclude_review c.decision (items_length xs)

-- `review_question_updates`
unfoldable pub review_question_updates :
    ReviewContext → Json → Result PolicyError PlannerDecisionOutcome
review_question_updates c (array xs) = review_items c xs
review_question_updates c _ = refuse c.decision malformed_collection 1
