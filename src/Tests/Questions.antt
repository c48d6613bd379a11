-- ===== src/Tests/Questions.antt =====
-- The questions of an investigation (core/yield_rca_core/question_capability.py and question_evidence.py) on an
-- outcome question and on one about the history of a tool.
use autonomous_qwen_react.Prelude.{
  String, true, false, not, ◌||◌, all, ◌≡◌, ◌≢◌, refl, List, [], ◌∷◌, ◌++◌, get, put, none, some,
  ok, All, Bool-cases, inl, inr, arith, if◌then◌else◌,
}
use autonomous_qwen_react.Json.{Json, text, array, object, item, end, field, nil}
use autonomous_qwen_react.Policy.Kinds.{
  ActionKind, inspect_defect_pattern, find_shared_exposure, in_progress, signal,
}
use autonomous_qwen_react.Policy.Models.{
  InvestigationAction, ActionRecord, completed, is_filled, non_empty, string_list, json_object,
}
use autonomous_qwen_react.Evidence.Collection.{Evidence}
use autonomous_qwen_react.Questions.Kinds.{
  QuestionKind, product_outcome, tool_history, spc_signal, process_mechanism, unsupported, opened,
  closed, occurs, is_some_item, supports,
}
use autonomous_qwen_react.Questions.Registry.{capability_of, check_definition}
use autonomous_qwen_react.Questions.Models.{
  InvestigationQuestion, QuestionEvidenceLink, QuestionUpdate, update_from_dict, strict_object,
  check_update, check_question,
}
use autonomous_qwen_react.Questions.Decisions.{
  PlannerDecision, PlannerDecisionOutcome, DecisionType, updated_ids, check_planner_decision,
  check_review, check_outcome,
}
use autonomous_qwen_react.Questions.Scope.{
  Texts, Typed, action_scope_matches_question, evidence_scope_matches_question,
}
use autonomous_qwen_react.Questions.Gate.{
  missing_groups, missing_groups_for_questions, validate_action_for_questions,
  validate_for_question,
}
use autonomous_qwen_react.Questions.Links.{
  resolve, links_of_item, links_of_type, group_of_type, group_preferences,
}
use autonomous_qwen_react.Questions.Verdicts.{
  ReviewContext, judge_raw, judge_update, existing_questions,
}
use autonomous_qwen_react.Questions.Review.{
  review_question_updates, review_each, build_review, conclude_review,
}
use autonomous_qwen_react.Questions.Reviewed.{updates_of}
use autonomous_qwen_react.Questions.Outcomes.{
  Reviews, outcome_of, review_question_updates-IsReviewed,
}
use autonomous_qwen_react.Questions.Progress.{missing_group_fillable}
use autonomous_qwen_react.Questions.Gains.{IsGain, validate_action_for_questions-IsGain}
use autonomous_qwen_react.Questions.Grounded.{IsGrounded, resolve-IsGrounded}
use autonomous_qwen_react.Questions.Stuck.{Steps, collected, tool_history_stays_open}
use autonomous_qwen_react.Questions.Terminal.{
  terminal_question_updates, terminal_update, closed_update, sorted_set, unique_texts,
}
use autonomous_qwen_react.Questions.Accepted.{StripsBlanks, IsAccepted}
use autonomous_qwen_react.Questions.Codec.{
  update_to_dict, question_to_dict, question_from_dict, legacy_question_kind,
}
use autonomous_qwen_react.Questions.Roundtrip.{
  update_from_dict-update_to_dict, question_from_dict-question_to_dict,
}
use autonomous_qwen_react.Questions.Proposed.{terminal_question_updates-IsAccepted}
use autonomous_qwen_react.Prelude.Sorting.{sorted, insert}
use autonomous_qwen_react.Questions.Registered.{is_contributed, capability_of-checked}
mod Updates
mod Dictionaries

abbrev text_of : Json → String
text_of (text s) = s
text_of _ = ""

abbrev pub plain_texts : Texts
plain_texts = record { casefold = λ s. s; upper = λ s. s; strip = λ s. s; str_of = text_of }

abbrev question_of : String → QuestionKind → InvestigationQuestion
question_of i kind = record {
  question_id = i;
  goal_id = "G1";
  question = "What happened?";
  rationale = "It must be known.";
  question_kind = kind;
  scope = ("lot_id", text "L1") ∷ [];
  status = opened;
  answer = none;
  evidence_ids = [];
  unavailable_reason = none;
}

abbrev pub outcome_question : InvestigationQuestion
outcome_question = question_of "Q1" product_outcome

abbrev pub tool_question : InvestigationQuestion
tool_question = question_of "Q2" tool_history

abbrev pub action_of : ActionKind → InvestigationAction
action_of kind = record {
  action_id = "A1";
  kind = kind;
  agent = "mes";
  reason = "A gap.";
  inputs = ("lot_id", text "L1") ∷ [];
  scope = [];
  required_evidence_ids = [];
  max_attempts = 1;
}

abbrev pub record_of : ActionKind → String → ActionRecord
record_of kind i = record {
  action = action_of kind;
  status = completed;
  produced_finding_ids = [];
  produced_evidence_ids = i ∷ [];
  decision_summary = "Done.";
}

abbrev pub evidence_of : String → String → Evidence Typed
evidence_of i type = record {
  evidence_id = i;
  evidence_type = some type;
  entities = record { entity_type = "lot"; entity_id = "L1" } ∷ [];
  payload = record { is_typed = true; metadata = [] };
}

abbrev defect : Evidence Typed
defect = evidence_of "E1" "defect_signal"

abbrev inspected : ActionRecord
inspected = record_of inspect_defect_pattern "E1"

resolved :
    resolve plain_texts inspected (outcome_question ∷ []) (defect ∷ [])
    ≡ record {
      question_id = "Q1";
      evidence_id = "E1";
      action_id = "A1";
      relation = supports;
      matched_evidence_group = "product_signal";
    }
      ∷ []
unfolding resolve links_of_item links_of_type group_of_type group_preferences get put capability_of
    action_scope_matches_question evidence_scope_matches_question
resolved = refl

abbrev signal_group : String
signal_group = "product_signal"

other_group : signal_group ≢ "process_exposure"
other_group e = cc

missing_group_fillable_example :
    (validate_action_for_questions plain_texts inspected.action
        (some (missing_groups_for_questions (outcome_question ∷ []) []))
        (outcome_question ∷ [])
      ≡ ok tt)
    × (occurs "product_signal" (
          missing_groups outcome_question (
            []
            ++ resolve plain_texts inspected
                ([] ++ outcome_question ∷ tool_question ∷ [])
                (defect ∷ [])))
        ≡ false)
unfolding missing_groups capability_of action_scope_matches_question evidence_scope_matches_question
    get put
missing_group_fillable_example =
    missing_group_fillable plain_texts outcome_question "product_signal" [] inspected []
      (tool_question ∷ []) (defect ∷ []) refl refl other_group refl refl
      (record {
        item = defect;
        is_filed = refl;
        is_among = refl;
        has_type = refl;
        is_of_schema = refl;
        is_in_scope = refl;
        is_agreeing = refl;
      })

validate_action_for_questions-IsGain_example :
    (is_some_item (outcome_question ∷ []) ≡ true)
    × All (IsGain plain_texts inspected.action []) (outcome_question ∷ [])
unfolding validate_action_for_questions validate_for_question missing_groups_for_questions
    missing_groups capability_of action_scope_matches_question get put
validate_action_for_questions-IsGain_example =
    validate_action_for_questions-IsGain plain_texts inspected.action [] (outcome_question ∷ [])
      refl refl

resolve-IsGrounded_example :
    All
      (IsGrounded plain_texts inspected (outcome_question ∷ []) (defect ∷ []))
      (resolve plain_texts inspected (outcome_question ∷ []) (defect ∷ []))
resolve-IsGrounded_example =
    resolve-IsGrounded plain_texts inspected (outcome_question ∷ []) (defect ∷ [])

capability_of-checked_example :
    ((capability_of tool_history).question_kind ≡ tool_history)
    × (check_definition (capability_of tool_history) ≡ ok tt)
    × ((not (capability_of tool_history).supported
          || all
              (is_contributed (capability_of tool_history))
              (capability_of tool_history).closure_evidence_groups)
        ≡ true)
capability_of-checked_example = capability_of-checked tool_history
