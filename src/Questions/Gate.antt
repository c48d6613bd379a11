-- ===== src/Questions/Gate.antt =====
-- The gate before an action (core/yield_rca_core/question_capability.py), and the evidence groups that
-- the questions still miss (`_missing_groups_for_questions` of core/yield_rca_core/next_action_planner.py).
use autonomous_qwen_react.Prelude.{
  String, not, ◌&&◌, List, [], ◌∷◌, str_eq, Dict, get, put, Option, none, some, Result, ok, raise,
  ◌>>◌, raise_if, if◌then◌else◌,
}
use autonomous_qwen_react.Policy.Models.{InvestigationAction}
use autonomous_qwen_react.Questions.Kinds.{is_supporting, occurs, meets, without, is_some_item}
use autonomous_qwen_react.Questions.Registry.{capability_of, allows, contribution_for}
use autonomous_qwen_react.Questions.Models.{InvestigationQuestion, QuestionEvidenceLink}
use autonomous_qwen_react.Questions.Scope.{Texts, action_scope_matches_question}

-- `QuestionCapabilityError`, by its reason code.
pub data QuestionCapabilityError : Type 0 where
  action_question_mismatch unsupported_question_kind action_scope_mismatch : QuestionCapabilityError
  no_expected_evidence_gain : QuestionCapabilityError

-- The groups of the supporting links of a question.
abbrev pub supported_groups : String → List QuestionEvidenceLink → List String
supported_groups question_id [] = []
supported_groups question_id (l ∷ ls) =
    let rest = supported_groups question_id ls in
    if str_eq l.question_id question_id && is_supporting l.relation
    then l.matched_evidence_group ∷ rest
    else rest

-- The groups that a question still misses.
unfoldable pub missing_groups : InvestigationQuestion → List QuestionEvidenceLink → List String
missing_groups q links =
    without (capability_of q.question_kind).closure_evidence_groups
      (supported_groups q.question_id links)

-- The missing groups of these questions beside others: of two questions with one identifier, the last
-- one counts.
abbrev pub put_missing :
    List InvestigationQuestion → List QuestionEvidenceLink → Dict (List String) → Dict (List String)
put_missing [] links d = d
put_missing (q ∷ qs) links d = put_missing qs links (put q.question_id (missing_groups q links) d)

-- `_missing_groups_for_questions`
unfoldable pub missing_groups_for_questions :
    List InvestigationQuestion → List QuestionEvidenceLink → Dict (List String)
missing_groups_for_questions qs links = put_missing qs links []

-- What the missing groups ask of the groups that the action contributes to.
abbrev pub check_gain : List String → List String → Result QuestionCapabilityError (Unit {0})
check_gain missing contribution = do
  raise_if (is_some_item missing && not (meets missing contribution))
      QuestionCapabilityError.no_expected_evidence_gain
  raise_if (not (is_some_item missing) && not (occurs "hypothesis_synthesis" contribution))
      QuestionCapabilityError.no_expected_evidence_gain

-- `missing_evidence_groups.get(question_id, frozenset())`, of what is found.
abbrev pub groups_or_none : Option (List String) → List String
groups_or_none none = []
groups_or_none (some groups) = groups

abbrev pub check_missing :
    Option (Dict (List String)) → String → List String → Result QuestionCapabilityError (Unit {0})
check_missing none question_id contribution = ok tt
check_missing (some d) question_id contribution =
    check_gain (groups_or_none (get question_id d)) contribution

module _ (t : Texts) (a : InvestigationAction) (missing : Option (Dict (List String))) where
  -- One round of the loop of `validate_action_for_questions`.
  unfoldable pub validate_for_question :
      InvestigationQuestion → Result QuestionCapabilityError (Unit {0})
  validate_for_question q = do
    raise_if (not (capability_of q.question_kind).supported)
        QuestionCapabilityError.unsupported_question_kind
    raise_if (not (allows (capability_of q.question_kind) a.kind))
        QuestionCapabilityError.action_question_mismatch
    raise_if (not (action_scope_matches_question t a q))
        QuestionCapabilityError.action_scope_mismatch
    check_missing missing q.question_id (contribution_for (capability_of q.question_kind) a.kind)

  abbrev pub validate_each : List InvestigationQuestion → Result QuestionCapabilityError (Unit {0})
  validate_each [] = ok tt
  validate_each (q ∷ qs) = validate_for_question q >> validate_each qs

  -- `validate_action_for_questions`
  unfoldable pub validate_action_for_questions :
      List InvestigationQuestion → Result QuestionCapabilityError (Unit {0})
  validate_action_for_questions [] = raise QuestionCapabilityError.action_question_mismatch
  validate_action_for_questions (q ∷ qs) = validate_each (q ∷ qs)
