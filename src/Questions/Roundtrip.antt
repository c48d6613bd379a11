-- ===== src/Questions/Roundtrip.antt =====
-- Questions and updates come back unchanged through their dictionaries
-- (core/yield_rca_core/investigation_models.py).
use autonomous_qwen_react.Prelude.{
  String, List, [], ◌∷◌, Option, none, some, ok, ◌≡◌, refl, Dict, ap, ◌∙◌, >>=-ok,
}
use autonomous_qwen_react.Json.{Json, text, object, optional_text}
use autonomous_qwen_react.Plan.Codec.{texts, fields_of}
use autonomous_qwen_react.Plan.Roundtrip.{dict_of-fields_of}
use autonomous_qwen_react.Questions.Kinds.{
  QuestionKind, question_kind_value, EvidenceGapStatus, opened, closed, unavailable,
  gap_status_value, defect_signature, impact_scope, spc_signal, process_mechanism, product_outcome,
  historical_match, tool_history, recipe_history, metrology_correlation, material_trace,
  unsupported,
}
use autonomous_qwen_react.Questions.Models.{
  InvestigationQuestion, QuestionUpdate, check_question, check_update, strict_object,
  optional_entry, texts_of_items, status_entry, update_from_dict,
}
use autonomous_qwen_react.Questions.Codec.{
  kind_entry, scope_entry, question_to_dict, question_from_dict, update_to_dict,
}

optional_entry-text : (o : Option String) → optional_entry (some (optional_text o)) ≡ ok o
optional_entry-text none = refl
optional_entry-text (some s) = refl

texts_of_items-texts : (xs : List String) → texts_of_items (texts xs) ≡ ok xs
texts_of_items-texts [] = refl
texts_of_items-texts (x ∷ xs) = rw (texts_of_items-texts xs) refl

status_entry-value :
    (s : EvidenceGapStatus) → status_entry (some (text (gap_status_value s))) ≡ ok s
status_entry-value opened = refl
status_entry-value closed = refl
status_entry-value unavailable = refl

kind_entry-value :
    (legacy k : QuestionKind) → kind_entry legacy (some (text (question_kind_value k))) ≡ ok k
kind_entry-value legacy defect_signature = refl
kind_entry-value legacy impact_scope = refl
kind_entry-value legacy spc_signal = refl
kind_entry-value legacy process_mechanism = refl
kind_entry-value legacy product_outcome = refl
kind_entry-value legacy historical_match = refl
kind_entry-value legacy tool_history = refl
kind_entry-value legacy recipe_history = refl
kind_entry-value legacy metrology_correlation = refl
kind_entry-value legacy material_trace = refl
kind_entry-value legacy unsupported = refl

scope_entry-object : (d : Dict Json) → scope_entry (some (object (fields_of d))) ≡ ok d
unfolding scope_entry
scope_entry-object d = ap (λ e. ok e) (dict_of-fields_of d)

-- An update that passed its checks comes back unchanged through its dictionary.
pub update_from_dict-update_to_dict :
    (u : QuestionUpdate) → check_update u ≡ ok tt → update_from_dict (update_to_dict u) ≡ ok u
unfolding update_from_dict update_to_dict strict_object
update_from_dict-update_to_dict u checked =
    >>=-ok _ (status_entry-value u.status)
    ∙ >>=-ok _ (optional_entry-text u.answer)
    ∙ >>=-ok _ (texts_of_items-texts u.evidence_ids)
    ∙ >>=-ok _ (optional_entry-text u.unavailable_reason)
    ∙ >>=-ok _ checked

-- A question that passed its checks comes back unchanged through its dictionary, with its kind, whatever
-- casefold makes of its texts.
pub question_from_dict-question_to_dict :
    (casefold : String → String) (q : InvestigationQuestion)
    → check_question q ≡ ok tt
    → question_from_dict casefold (question_to_dict q) ≡ ok q
unfolding question_from_dict question_to_dict strict_object
question_from_dict-question_to_dict casefold q checked =
    >>=-ok _ (kind_entry-value _ q.question_kind)
    ∙ >>=-ok _ (scope_entry-object q.scope)
    ∙ >>=-ok _ (status_entry-value q.status)
    ∙ >>=-ok _ (optional_entry-text q.answer)
    ∙ >>=-ok _ (texts_of_items-texts q.evidence_ids)
    ∙ >>=-ok _ (optional_entry-text q.unavailable_reason)
    ∙ >>=-ok _ checked
