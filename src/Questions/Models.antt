-- ===== src/Questions/Models.antt =====
-- The records of core/yield_rca_core/investigation_models.py about questions, with the checks of their
-- `__post_init__`. The kind of a question is the one that the check stores; a value of
-- the wrong type fails the same check as a blank text.
use autonomous_qwen_react.Prelude.{
  String, Bool, true, false, not, ◌||◌, List, [], ◌∷◌, all, str_eq, Dict, Option, none, some,
  Result, ok, raise, ◌>>=◌, ◌>>◌, raise_if, if◌then◌else◌,
}
use autonomous_qwen_react.Json.{Json, Items, Fields, text, array, item, end, field, nil, null}
use autonomous_qwen_react.Policy.Models.{
  PolicyError, is_filled, non_empty, string_list, json_object,
}
use autonomous_qwen_react.Questions.Kinds.{
  QuestionKind, EvidenceGapStatus, QuestionEvidenceRelation, gap_status, occurs, is_subset,
  is_some_item, opened, closed, unavailable,
}

abbrev pub invalid : PolicyError
invalid = PolicyError.validation_error

-- `value is not None`
abbrev pub is_present {ℓ} : {A : Type ℓ} → Option A → Bool
is_present none = false
is_present (some a) = true

-- `_non_empty` of a value that may be missing; without it, the check for `None` before.
abbrev pub filled : Option String → Result PolicyError (Unit {0})
filled none = raise invalid
filled (some s) = non_empty s

pub record InvestigationQuestion : Type 0 where
  pub question_id : String
  pub goal_id : String
  pub question : String
  pub rationale : String
  pub question_kind : QuestionKind
  pub scope : Dict Json
  pub status : EvidenceGapStatus
  pub answer : Option String
  pub evidence_ids : List String
  pub unavailable_reason : Option String

-- What a status asks of the other entries of a question.
abbrev check_status : InvestigationQuestion → EvidenceGapStatus → Result PolicyError (Unit {0})
check_status q opened = raise_if (is_present q.answer || is_present q.unavailable_reason) invalid
check_status q closed = do
  filled q.answer
  raise_if (not (is_some_item q.evidence_ids)) invalid
  raise_if (is_present q.unavailable_reason) invalid
check_status q unavailable = do filled q.unavailable_reason; raise_if (is_present q.answer) invalid

-- `InvestigationQuestion.__post_init__`
unfoldable pub check_question : InvestigationQuestion → Result PolicyError (Unit {0})
check_question q = do
  non_empty q.question_id
  non_empty q.goal_id
  non_empty q.question
  non_empty q.rationale
  json_object q.scope
  string_list q.evidence_ids
  check_status q q.status

-- A `QuestionEvidenceLink`, without its reason.
pub record QuestionEvidenceLink : Type 0 where
  pub question_id : String
  pub evidence_id : String
  pub action_id : String
  pub relation : QuestionEvidenceRelation
  pub matched_evidence_group : String

-- A `CapabilityNotice`, as far as the review reads it.
pub record CapabilityNotice : Type 0 where
  pub capability : String
  pub supported : Bool

pub record QuestionUpdate : Type 0 where
  pub question_id : String
  pub status : EvidenceGapStatus
  pub answer : Option String
  pub evidence_ids : List String
  pub unavailable_reason : Option String

-- What a status asks of the other entries of an update.
abbrev pub check_terminal : QuestionUpdate → EvidenceGapStatus → Result PolicyError (Unit {0})
check_terminal u opened = raise invalid
check_terminal u closed = do
  filled u.answer
  raise_if (not (is_some_item u.evidence_ids)) invalid
  raise_if (is_present u.unavailable_reason) invalid
check_terminal u unavailable = do
  raise_if (is_present u.answer) invalid
  filled u.unavailable_reason

-- `QuestionUpdate.__post_init__`
unfoldable pub check_update : QuestionUpdate → Result PolicyError (Unit {0})
check_update u = do non_empty u.question_id; string_list u.evidence_ids; check_terminal u u.status

abbrev pub keys_of : Fields → List String
keys_of nil = []
keys_of (field k v fs) = k ∷ keys_of fs

-- `_strict_object`
unfoldable pub strict_object : List String → List String → Fields → Result PolicyError (Unit {0})
strict_object required optional fs = do
  raise_if (not (all is_filled (keys_of fs))) invalid
  raise_if (not (is_subset required (keys_of fs))) invalid
  raise_if (not (all (λ k. occurs k required || occurs k optional) (keys_of fs))) invalid

-- `payload.get(key)`
abbrev pub payload_get : String → Fields → Option Json
payload_get key nil = none
payload_get key (field k v fs) = if str_eq k key then some v else payload_get key fs

-- A value that must be a text, or may be missing.
abbrev pub text_entry : Option Json → Result PolicyError String
text_entry (some (text s)) = ok s
text_entry _ = raise invalid

abbrev pub optional_entry : Option Json → Result PolicyError (Option String)
optional_entry none = ok none
optional_entry (some null) = ok none
optional_entry (some (text s)) = ok (some s)
optional_entry (some _) = raise invalid

abbrev pub texts_of_items : Items → Result PolicyError (List String)
texts_of_items end = ok []
texts_of_items (item (text s) xs) = do ss ← texts_of_items xs; ok (s ∷ ss)
texts_of_items (item _ xs) = raise invalid

-- `payload.get(key, [])`, of texts.
abbrev pub texts_entry : Option Json → Result PolicyError (List String)
texts_entry none = ok []
texts_entry (some (array xs)) = texts_of_items xs
texts_entry (some _) = raise invalid

abbrev pub status_entry : Option Json → Result PolicyError EvidenceGapStatus
status_entry j = do
  s ← text_entry j
  elim (gap_status s) [ none ↦ raise invalid | some status ↦ ok status ]

-- `QuestionUpdate.from_dict`; each of its errors is the one `InvestigationValidationError`.
unfoldable pub update_from_dict : Fields → Result PolicyError QuestionUpdate
update_from_dict fs = do
  strict_object ("question_id" ∷ "status" ∷ [])
      ("answer" ∷ "evidence_ids" ∷ "unavailable_reason" ∷ []) fs
  question_id ← text_entry (payload_get "question_id" fs)
  status ← status_entry (payload_get "status" fs)
  answer ← optional_entry (payload_get "answer" fs)
  evidence_ids ← texts_entry (payload_get "evidence_ids" fs)
  unavailable_reason ← optional_entry (payload_get "unavailable_reason" fs)
  let u : QuestionUpdate = record {
    question_id = question_id;
    status = status;
    answer = answer;
    evidence_ids = evidence_ids;
    unavailable_reason = unavailable_reason;
  }
  check_update u
  ok u
