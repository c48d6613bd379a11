-- ===== src/Questions/Decisions.antt =====
-- `PlannerDecision`, `QuestionUpdateReview` and `PlannerDecisionOutcome` of
-- core/yield_rca_core/investigation_models.py, with the checks of their `__post_init__`. The texts of
-- the reviews' reasons are left out: each begins with a word.
use autonomous_qwen_react.Prelude.{
  ℕ, String, Bool, true, false, not, ◌&&◌, ◌||◌, List, [], ◌∷◌, all, map, length, ltb, str_eq,
  has_duplicates, Option, none, some, Result, ok, ◌>>◌, raise_if,
}
use autonomous_qwen_react.Policy.Kinds.{GoalStatus, ConclusionLevel, StopReason, in_progress}
use autonomous_qwen_react.Policy.Models.{PolicyError, InvestigationAction, non_empty, string_list}
use autonomous_qwen_react.Questions.Kinds.{is_some_item, meets, opened}
use autonomous_qwen_react.Questions.Models.{
  InvestigationQuestion, QuestionUpdate, is_present, invalid,
}

pub data DecisionType : Type 0 where
  act stop : DecisionType

pub record PlannerDecision : Type 0 where
  pub decision_id : String
  pub goal_id : String
  pub decision_type : DecisionType
  pub reason : String
  pub goal_status : GoalStatus
  pub proposed_conclusion_level : ConclusionLevel
  pub next_action : Option InvestigationAction
  pub target_question_ids : List String
  pub new_questions : List InvestigationQuestion
  pub stop_reason : Option StopReason
  pub question_updates : List QuestionUpdate

abbrev pub updated_ids : List QuestionUpdate → List String
updated_ids us = map (λ u. u.question_id) us

abbrev pub question_ids : List InvestigationQuestion → List String
question_ids qs = map (λ q. q.question_id) qs

abbrev is_open : InvestigationQuestion → Bool
is_open q = elim q.status [ opened ↦ true | _ ↦ false ]

abbrev is_in_progress : GoalStatus → Bool
is_in_progress in_progress = true
is_in_progress _ = false

-- What the decision's type asks of its other entries, the updates not among them.
abbrev pub check_type : PlannerDecision → DecisionType → Result PolicyError (Unit {0})
check_type d act = do
  raise_if (not (is_present d.next_action)) invalid
  raise_if (is_present d.stop_reason) invalid
  raise_if (not (is_in_progress d.goal_status)) invalid
  raise_if (not (is_some_item d.target_question_ids)) invalid
check_type d stop = do
  raise_if (is_present d.next_action) invalid
  raise_if (not (is_present d.stop_reason)) invalid
  raise_if (is_in_progress d.goal_status) invalid
  raise_if (is_some_item d.new_questions) invalid

-- What the decision's type asks of the updates.
abbrev pub check_overlap : PlannerDecision → DecisionType → Result PolicyError (Unit {0})
check_overlap d act =
    raise_if (meets (updated_ids d.question_updates) d.target_question_ids) invalid
check_overlap d stop = ok tt

-- The checks of `question_updates` themselves.
abbrev pub check_updates : PlannerDecision → Result PolicyError (Unit {0})
check_updates d = do
  raise_if (has_duplicates (updated_ids d.question_updates)) invalid
  raise_if (meets (updated_ids d.question_updates) (question_ids d.new_questions)) invalid

-- The checks before those of `question_updates`.
abbrev pub check_core : PlannerDecision → Result PolicyError (Unit {0})
check_core d = do
  non_empty d.decision_id
  non_empty d.goal_id
  non_empty d.reason
  string_list d.target_question_ids
  raise_if (not (all (λ q. str_eq q.goal_id d.goal_id) d.new_questions)) invalid
  raise_if (not (all is_open d.new_questions)) invalid
  raise_if (has_duplicates (question_ids d.new_questions)) invalid

-- `PlannerDecision.__post_init__`
unfoldable pub check_planner_decision : PlannerDecision → Result PolicyError (Unit {0})
check_planner_decision d = do
  check_core d
  check_updates d
  check_type d d.decision_type
  check_overlap d d.decision_type

pub data QuestionUpdateDisposition : Type 0 where
  accepted rejected : QuestionUpdateDisposition

-- `QuestionUpdateReasonCode`; `is_accepted` is its member `ACCEPTED`.
pub data QuestionUpdateReasonCode : Type 0 where
  is_accepted malformed_collection too_many_updates malformed_update : QuestionUpdateReasonCode
  non_terminal_status duplicate_question unknown_question : QuestionUpdateReasonCode
  new_question_conflict terminal_question target_overlap : QuestionUpdateReasonCode
  unknown_evidence evidence_not_applicable : QuestionUpdateReasonCode
  insufficient_evidence_coverage unsupported_capability : QuestionUpdateReasonCode
  missing_unavailability_evidence : QuestionUpdateReasonCode

pub record QuestionUpdateReview : Type 0 where
  pub decision_id : String
  pub disposition : QuestionUpdateDisposition
  pub reason_code : QuestionUpdateReasonCode
  pub update_index : Option ℕ
  pub question_id : Option String
  pub claimed_status : Option String

abbrev pub is_accepting : QuestionUpdateReasonCode → Bool
is_accepting is_accepted = true
is_accepting _ = false

abbrev pub non_empty_if_given : Option String → Result PolicyError (Unit {0})
non_empty_if_given none = ok tt
non_empty_if_given (some s) = non_empty s

-- `claimed_status in {"closed", "unavailable"}`
abbrev pub claims_terminal : Option String → Bool
claims_terminal none = false
claims_terminal (some s) = str_eq s "closed" || str_eq s "unavailable"

abbrev pub check_disposition :
    QuestionUpdateReview → QuestionUpdateDisposition → Result PolicyError (Unit {0})
check_disposition r accepted = do
  raise_if (not (is_accepting r.reason_code)) invalid
  raise_if (not (is_present r.question_id) || not (is_present r.update_index)) invalid
  raise_if (not (claims_terminal r.claimed_status)) invalid
check_disposition r rejected = raise_if (is_accepting r.reason_code) invalid

-- `QuestionUpdateReview.__post_init__`
unfoldable pub check_review : QuestionUpdateReview → Result PolicyError (Unit {0})
check_review r = do
  non_empty r.decision_id
  non_empty_if_given r.question_id
  non_empty_if_given r.claimed_status
  check_disposition r r.disposition

pub data UpdatesSource : Type 0 where
  qwen python_evidence_gate : UpdatesSource

-- A `PlannerDecisionOutcome`, with one of the two allowed values of `decision_proposed_by`.
pub record PlannerDecisionOutcome : Type 0 where
  pub decision : PlannerDecision
  pub question_update_reviews : List QuestionUpdateReview
  pub raw_question_update_count : ℕ
  pub decision_proposed_by : String
  pub question_updates_source : Option UpdatesSource

-- The question of an accepted review, which has one.
abbrev pub accepted_id : QuestionUpdateReview → List String → List String
accepted_id r rest = elim r.disposition [
  | rejected ↦ rest
  | accepted ↦ elim r.question_id [ none ↦ rest | some i ↦ i ∷ rest ]
]

abbrev pub accepted_question_ids : List QuestionUpdateReview → List String
accepted_question_ids [] = []
accepted_question_ids (r ∷ rs) = accepted_id r (accepted_question_ids rs)

-- `xs == ys`
abbrev pub same_texts : List String → List String → Bool
same_texts [] [] = true
same_texts [] (y ∷ ys) = false
same_texts (x ∷ xs) [] = false
same_texts (x ∷ xs) (y ∷ ys) = str_eq x y && same_texts xs ys

-- `PlannerDecisionOutcome.__post_init__`
unfoldable pub check_outcome : PlannerDecisionOutcome → Result PolicyError (Unit {0})
check_outcome o = do
  raise_if (is_present o.question_updates_source && not (is_some_item o.decision.question_updates))
      invalid
  raise_if (not (all (λ r. str_eq r.decision_id o.decision.decision_id) o.question_update_reviews))
      invalid
  raise_if
      (ltb 0 o.raw_question_update_count
        && not (
            same_texts (accepted_question_ids o.question_update_reviews)
              (updated_ids o.decision.question_updates)))
      invalid
  raise_if (ltb o.raw_question_update_count (length o.question_update_reviews)) invalid
