-- ===== src/Tests/Questions/Updates.antt =====
-- Reviews of question updates, and the updates that Python proposes
-- (core/yield_rca_core/question_update_review.py and next_action_planner.py).
use autonomous_qwen_react.Prelude.{
  String, ◌≡◌, ◌≢◌, refl, List, [], ◌∷◌, get, put, none, some, ok, All, Bool-cases, inl, inr, arith,
  if◌then◌else◌,
}
use autonomous_qwen_react.Json.{Json, text, array, object, item, end, field, nil}
use autonomous_qwen_react.Policy.Kinds.{find_shared_exposure, in_progress, signal}
use autonomous_qwen_react.Policy.Models.{is_filled, non_empty, string_list}
use autonomous_qwen_react.Questions.Kinds.{closed, supports}
use autonomous_qwen_react.Questions.Registry.{capability_of}
use autonomous_qwen_react.Questions.Models.{
  QuestionEvidenceLink, QuestionUpdate, update_from_dict, strict_object, check_update,
}
use autonomous_qwen_react.Questions.Decisions.{
  PlannerDecision, PlannerDecisionOutcome, DecisionType, updated_ids, check_planner_decision,
  check_review, check_outcome,
}
use autonomous_qwen_react.Questions.Scope.{
  Texts, action_scope_matches_question, evidence_scope_matches_question,
}
use autonomous_qwen_react.Questions.Links.{
  resolve, links_of_item, links_of_type, group_of_type, group_preferences,
}
use autonomous_qwen_react.Questions.Verdicts.{
  ReviewContext, judge_raw, judge_update, existing_questions,
}
use autonomous_qwen_react.Questions.Review.{
  review_question_updates, review_each, build_review, conclude_review,
}
use autonomous_qwen_react.Questions.Reviewed.{updates_of}
use autonomous_qwen_react.Questions.Outcomes.{
  Reviews, outcome_of, review_question_updates-IsReviewed,
}
use autonomous_qwen_react.Questions.Stuck.{Steps, collected, tool_history_stays_open}
use autonomous_qwen_react.Questions.Terminal.{
  terminal_question_updates, terminal_update, closed_update, sorted_set, unique_texts,
}
use autonomous_qwen_react.Questions.Accepted.{StripsBlanks}
use autonomous_qwen_react.Questions.Proposed.{Agrees, terminal_question_updates-IsAccepted}
use autonomous_qwen_react.Prelude.Sorting.{sorted, insert}
use autonomous_qwen_react.Tests.Questions.{
  plain_texts, outcome_question, tool_question, action_of, record_of, evidence_of,
}

-- A decision that goes on with a third question.
abbrev decision : PlannerDecision
decision = record {
  decision_id = "D1";
  goal_id = "G1";
  decision_type = DecisionType.act;
  reason = "Next.";
  goal_status = in_progress;
  proposed_conclusion_level = signal;
  next_action = some (action_of find_shared_exposure);
  target_question_ids = "Q3" ∷ [];
  new_questions = [];
  stop_reason = none;
  question_updates = [];
}

abbrev context_of : List QuestionEvidenceLink → ReviewContext
context_of links = record {
  decision = decision;
  questions = outcome_question ∷ tool_question ∷ [];
  available_evidence_ids = "E1" ∷ "E2" ∷ [];
  question_evidence_links = some links;
  capability_notices = [];
}

-- A proposed answer on this evidence.
abbrev closing_update : String → String → Json
closing_update i e = object (
    field "question_id" (text i) (
      field "status" (text "closed")
        (field "answer" (text "So.") (field "evidence_ids" (array (item (text e) end)) nil))))

abbrev closing : String → String → Json
closing i e = array (item (closing_update i e) end)

abbrev support_link : QuestionEvidenceLink
support_link = record {
  question_id = "Q1";
  evidence_id = "E1";
  action_id = "A1";
  relation = supports;
  matched_evidence_group = "product_signal";
}

-- The answer of the outcome question is accepted.
answered :
    updated_ids (
      updates_of (context_of (support_link ∷ [])) ("Q1" ∷ []) (item (closing_update "Q1" "E1") end))
    ≡ "Q1" ∷ []
unfolding judge_raw judge_update existing_questions get put capability_of update_from_dict
    strict_object check_update non_empty string_list
answered = refl

review_question_updates-IsReviewed_example :
    Reviews (context_of (support_link ∷ [])) (closing "Q1" "E1")
unfolding check_planner_decision non_empty string_list
review_question_updates-IsReviewed_example =
    review_question_updates-IsReviewed (context_of (support_link ∷ [])) refl refl
      (closing "Q1" "E1")

abbrev exposed : Steps
exposed =
    (
      record_of find_shared_exposure "E2",
      outcome_question ∷ tool_question ∷ [],
      evidence_of "E2" "process_exposure" ∷ [],
    )
    ∷ []

abbrev tool_context : ReviewContext
tool_context = context_of (collected plain_texts exposed)

abbrev refused_outcome : PlannerDecisionOutcome
refused_outcome = outcome_of tool_context (item (closing_update "Q2" "E2") end)

tool_history_stays_open_example :
    All
      (λ (u : QuestionUpdate). u.question_id ≡ "Q2" → u.status ≢ closed)
      refused_outcome.decision.question_updates
unfolding check_planner_decision non_empty string_list existing_questions get put
    review_question_updates conclude_review review_each build_review judge_raw judge_update
    capability_of update_from_dict strict_object check_update resolve links_of_item links_of_type
    group_of_type group_preferences action_scope_matches_question evidence_scope_matches_question
    check_review check_outcome
tool_history_stays_open_example =
    tool_history_stays_open plain_texts exposed tool_context (closing "Q2" "E2") tool_question refl
      refl refl refl refl refl

-- A `strip` that leaves a text as it is, or nothing of a blank one.
abbrev trimmed : String → String
trimmed s = if is_filled s then s else ""

abbrev trimming : Texts
trimming = record plain_texts { strip = trimmed }

trimmed-filled : StripsBlanks trimming
trimmed-filled s h = elim (Bool-cases (is_filled s)) [
  | inl e ↦ rw e e
  | inr e ↦ absurd (ground (arith, e, rw e at h))
]

abbrev stopping : ReviewContext
stopping = context_of (support_link ∷ [])

terminal_question_updates-IsAccepted_example : Agrees stopping (outcome_question ∷ []) (
    terminal_question_updates trimming
      ("A scratch." ∷ " " ∷ [])
      (outcome_question ∷ [])
      stopping.available_evidence_ids
      (some (support_link ∷ [])))
unfolding existing_questions get put
terminal_question_updates-IsAccepted_example =
    terminal_question_updates-IsAccepted trimming trimmed-filled ("A scratch." ∷ " " ∷ []) stopping
      (support_link ∷ []) refl refl refl (outcome_question ∷ [])
      (
        record {
          is_named = refl;
          is_current = refl;
          is_still_open = refl;
          is_not_new = refl;
          is_not_targeted = refl;
          is_not_noticed = refl;
        },
        tt,
      )

-- What Python proposes for an outcome question and for one about the history of a tool.
proposed :
    terminal_question_updates trimming []
      (outcome_question ∷ tool_question ∷ [])
      ("E1" ∷ [])
      (some (support_link ∷ []))
    ≡ ok (
        closed_update outcome_question "The applicable Evidence supports this Question: E1"
          ("E1" ∷ [])
        ∷ [])
unfolding terminal_question_updates terminal_update capability_of check_update non_empty string_list
    sorted_set unique_texts sorted insert
proposed = refl
