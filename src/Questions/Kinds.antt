-- ===== src/Questions/Kinds.antt =====
-- The kinds of questions, their statuses and the relations of evidence to them
-- (core/yield_rca_core/investigation_models.py), and tests on lists of texts as sets.
use autonomous_qwen_react.Prelude.{
  String, Bool, true, false, List, [], ◌∷◌, any, all, filter, str_eq, Option, none, some, not,
  if◌then◌else◌,
}

pub data QuestionKind : Type 0 where
  defect_signature impact_scope spc_signal process_mechanism product_outcome : QuestionKind
  historical_match tool_history recipe_history metrology_correlation : QuestionKind
  material_trace unsupported : QuestionKind

-- `QuestionKind.X.value`
abbrev pub question_kind_value : QuestionKind → String
question_kind_value defect_signature = "defect_signature"
question_kind_value impact_scope = "impact_scope"
question_kind_value spc_signal = "spc_signal"
question_kind_value process_mechanism = "process_mechanism"
question_kind_value product_outcome = "product_outcome"
question_kind_value historical_match = "historical_match"
question_kind_value tool_history = "tool_history"
question_kind_value recipe_history = "recipe_history"
question_kind_value metrology_correlation = "metrology_correlation"
question_kind_value material_trace = "material_trace"
question_kind_value unsupported = "unsupported"

pub data EvidenceGapStatus : Type 0 where
  opened closed unavailable : EvidenceGapStatus

-- `EvidenceGapStatus(text)`; `none` is its `ValueError`.
abbrev pub gap_status : String → Option EvidenceGapStatus
gap_status s =
    if str_eq s "open"
    then some opened
    else if str_eq s "closed"
    then some closed
    else if str_eq s "unavailable"
    then some unavailable
    else none

abbrev pub gap_status_value : EvidenceGapStatus → String
gap_status_value opened = "open"
gap_status_value closed = "closed"
gap_status_value unavailable = "unavailable"

pub data QuestionEvidenceRelation : Type 0 where
  supports contradicts context no_data : QuestionEvidenceRelation

abbrev pub is_supporting : QuestionEvidenceRelation → Bool
is_supporting supports = true
is_supporting _ = false

abbrev pub is_unavailable : QuestionEvidenceRelation → Bool
is_unavailable no_data = true
is_unavailable _ = false

-- `x in xs`
abbrev pub occurs : String → List String → Bool
occurs x xs = any (str_eq x) xs

-- `set(xs) <= set(ys)`
abbrev pub is_subset : List String → List String → Bool
is_subset xs ys = all (λ x. occurs x ys) xs

-- `bool(set(xs) & set(ys))`
abbrev pub meets : List String → List String → Bool
meets xs ys = any (λ x. occurs x ys) xs

-- `set(xs) - set(ys)`
abbrev pub without : List String → List String → List String
without xs ys = filter (λ x. not (occurs x ys)) xs

-- `bool(xs)`
abbrev pub is_some_item {ℓ} : {A : Type ℓ} → List A → Bool
is_some_item [] = false
is_some_item (x ∷ xs) = true
