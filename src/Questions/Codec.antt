-- ===== src/Questions/Codec.antt =====
-- `to_dict` and `from_dict` of `InvestigationQuestion` and `QuestionUpdate`
-- (core/yield_rca_core/investigation_models.py), with `_legacy_question_kind` for questions without a kind.
use autonomous_qwen_react.Prelude.{
  ℕ, String, Bool, ◌||◌, List, [], ◌∷◌, any, find, map, codes, codes_eq, ◌==◌, str_eq, Dict, Option,
  none, some, Result, ok, raise, ◌>>=◌, ◌>>◌, if◌then◌else◌,
}
use autonomous_qwen_react.Json.{Json, Fields, null, text, array, object, field, nil, optional_text}
use autonomous_qwen_react.Policy.Models.{PolicyError, is_filled}
use autonomous_qwen_react.Plan.Codec.{texts, fields_of, dict_of}
use autonomous_qwen_react.Worker.Modes.{occurs_in}
use autonomous_qwen_react.Questions.Kinds.{
  QuestionKind, question_kind_value, EvidenceGapStatus, opened, gap_status_value, defect_signature,
  impact_scope, spc_signal, process_mechanism, product_outcome, historical_match, tool_history,
  recipe_history, metrology_correlation, material_trace, unsupported,
}
use autonomous_qwen_react.Questions.Models.{
  InvestigationQuestion, QuestionUpdate, check_question, invalid, strict_object, payload_get,
  text_entry, optional_entry, texts_entry, status_entry,
}

-- The kinds in the order of their enumeration, `UNSUPPORTED` left out.
abbrev pub known_kinds : List QuestionKind
known_kinds =
    defect_signature ∷ impact_scope ∷ spc_signal ∷ process_mechanism ∷ product_outcome
    ∷ historical_match ∷ tool_history ∷ recipe_history ∷ metrology_correlation ∷ material_trace ∷ []

-- `s.endswith(suffix)`, on code points.
abbrev pub ends_with : List ℕ → List ℕ → Bool
ends_with suffix [] = codes_eq suffix []
ends_with suffix (c ∷ s) = codes_eq suffix (c ∷ s) || ends_with suffix s

-- `s.endswith(suffix) or part in s`
abbrev is_marked : List ℕ → String → String → Bool
is_marked s suffix part = ends_with (codes suffix) s || occurs_in (codes part) s

abbrev mentions : List ℕ → List String → Bool
mentions s parts = any (λ p. occurs_in (codes p) s) parts

-- `normalized_id`: with `_` for `-`.
abbrev with_underscores : List ℕ → List ℕ
with_underscores s = map (λ c. if c == b'-' then b'_' else c) s

abbrev by_question : List ℕ → QuestionKind
by_question s =
    if mentions s ("mechanism" ∷ "root cause" ∷ "cause" ∷ [])
    then process_mechanism
    else if mentions s ("impact" ∷ "affected lot" ∷ "share the relevant" ∷ [])
    then impact_scope
    else if mentions s ("spc" ∷ "control chart" ∷ [])
    then spc_signal
    else if mentions s ("defect" ∷ "scratch" ∷ "product outcome" ∷ [])
    then defect_signature
    else unsupported

abbrev by_identifier : List ℕ → QuestionKind → QuestionKind
by_identifier i other =
    if is_marked i "q_defect" "defect"
    then defect_signature
    else if is_marked i "q_mechanism" "mechanism"
    then process_mechanism
    else if is_marked i "q_impact" "impact"
    then impact_scope
    else if is_marked i "q_spc" "spc"
    then spc_signal
    else other

-- `_legacy_question_kind`
unfoldable pub legacy_question_kind : (String → String) → String → String → QuestionKind
legacy_question_kind casefold question_id question =
    let i = with_underscores (codes (casefold question_id)) in
    elim (find (λ k. ends_with (codes (question_kind_value k)) i) known_kinds) [
      | some k ↦ k
      | none ↦ by_identifier i (by_question (codes (casefold question)))
    ]

-- `QuestionKind(value)`
abbrev pub kind_of_value : String → Result PolicyError QuestionKind
kind_of_value s = elim (find (λ k. str_eq (question_kind_value k) s) (unsupported ∷ known_kinds)) [
  | none ↦ raise invalid
  | some k ↦ ok k
]

-- The kind that the check stores: of a text that is not blank, and otherwise the legacy one. What is neither a
-- text nor `None` is no kind.
abbrev pub kind_entry : QuestionKind → Option Json → Result PolicyError QuestionKind
kind_entry legacy none = ok legacy
kind_entry legacy (some null) = ok legacy
kind_entry legacy (some (text s)) = if is_filled s then kind_of_value s else ok legacy
kind_entry legacy (some _) = raise invalid

-- `payload.get("status", "open")`
abbrev pub status_or_open : Option Json → Result PolicyError EvidenceGapStatus
status_or_open none = ok opened
status_or_open (some j) = status_entry (some j)

-- `payload.get("scope", {})`
unfoldable pub scope_entry : Option Json → Result PolicyError (Dict Json)
scope_entry none = ok []
scope_entry (some (object fs)) = ok (dict_of fs)
scope_entry (some _) = raise invalid

-- `InvestigationQuestion.to_dict`
unfoldable pub question_to_dict : InvestigationQuestion → Fields
question_to_dict q = field "question_id" (text q.question_id) (
    field "goal_id" (text q.goal_id) (
      field "question" (text q.question) (
        field "rationale" (text q.rationale) (
          field "question_kind" (text (question_kind_value q.question_kind)) (
            field "scope" (object (fields_of q.scope)) (
              field "status" (text (gap_status_value q.status)) (
                field "answer" (optional_text q.answer) (
                  field "evidence_ids" (array (texts q.evidence_ids))
                    (field "unavailable_reason" (optional_text q.unavailable_reason) nil)))))))))

-- `InvestigationQuestion.from_dict`; each of its errors is the one `InvestigationValidationError`.
unfoldable pub question_from_dict :
    (String → String) → Fields → Result PolicyError InvestigationQuestion
question_from_dict casefold fs = do
  strict_object ("question_id" ∷ "goal_id" ∷ "question" ∷ "rationale" ∷ [])
      ("scope" ∷ "question_kind" ∷ "status" ∷ "answer" ∷ "evidence_ids" ∷ "unavailable_reason" ∷ [])
      fs
  question_id ← text_entry (payload_get "question_id" fs)
  goal_id ← text_entry (payload_get "goal_id" fs)
  question ← text_entry (payload_get "question" fs)
  rationale ← text_entry (payload_get "rationale" fs)
  kind ←
      kind_entry (legacy_question_kind casefold question_id question)
        (payload_get "question_kind" fs)
  scope ← scope_entry (payload_get "scope" fs)
  status ← status_or_open (payload_get "status" fs)
  answer ← optional_entry (payload_get "answer" fs)
  evidence_ids ← texts_entry (payload_get "evidence_ids" fs)
  unavailable_reason ← optional_entry (payload_get "unavailable_reason" fs)
  let q : InvestigationQuestion = record {
    question_id = question_id;
    goal_id = goal_id;
    question = question;
    rationale = rationale;
    question_kind = kind;
    scope = scope;
    status = status;
    answer = answer;
    evidence_ids = evidence_ids;
    unavailable_reason = unavailable_reason;
  }
  check_question q
  ok q

-- `QuestionUpdate.to_dict`
unfoldable pub update_to_dict : QuestionUpdate → Fields
update_to_dict u = field "question_id" (text u.question_id) (
    field "status" (text (gap_status_value u.status)) (
      field "answer" (optional_text u.answer) (
        field "evidence_ids" (array (texts u.evidence_ids))
          (field "unavailable_reason" (optional_text u.unavailable_reason) nil))))
