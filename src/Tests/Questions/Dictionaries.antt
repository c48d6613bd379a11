-- ===== src/Tests/Questions/Dictionaries.antt =====
-- A question and an update through their dictionaries (core/yield_rca_core/investigation_models.py).
use autonomous_qwen_react.Prelude.{◌≡◌, refl, [], ◌∷◌, some, ok}
use autonomous_qwen_react.Policy.Models.{non_empty, string_list, json_object}
use autonomous_qwen_react.Questions.Kinds.{spc_signal, process_mechanism, unsupported, closed}
use autonomous_qwen_react.Questions.Models.{
  InvestigationQuestion, QuestionUpdate, update_from_dict, check_update, check_question,
}
use autonomous_qwen_react.Questions.Terminal.{closed_update}
use autonomous_qwen_react.Questions.Codec.{
  update_to_dict, question_to_dict, question_from_dict, legacy_question_kind,
}
use autonomous_qwen_react.Questions.Roundtrip.{
  update_from_dict-update_to_dict, question_from_dict-question_to_dict,
}
use autonomous_qwen_react.Tests.Questions.{outcome_question}

abbrev answered_question : InvestigationQuestion
answered_question = record outcome_question {
  status = closed;
  answer = some "A scratch.";
  evidence_ids = "E1" ∷ [];
}

abbrev answering_update : QuestionUpdate
answering_update = closed_update outcome_question "A scratch." ("E1" ∷ [])

answered_question-valid : check_question answered_question ≡ ok tt
unfolding check_question non_empty string_list json_object
answered_question-valid = refl

answering_update-valid : check_update answering_update ≡ ok tt
unfolding check_update non_empty string_list
answering_update-valid = refl

question_from_dict-question_to_dict_example :
    question_from_dict (λ s. s) (question_to_dict answered_question) ≡ ok answered_question
question_from_dict-question_to_dict_example =
    question_from_dict-question_to_dict (λ s. s) answered_question answered_question-valid

update_from_dict-update_to_dict_example :
    update_from_dict (update_to_dict answering_update) ≡ ok answering_update
update_from_dict-update_to_dict_example =
    update_from_dict-update_to_dict answering_update answering_update-valid

-- Questions without a kind, by the end of the identifier, by its parts, and by the question.
legacy_kinds :
    (legacy_question_kind (λ s. s) "q-1-spc-signal" "" ≡ spc_signal)
    × (legacy_question_kind (λ s. s) "q_mechanism_2" "" ≡ process_mechanism)
    × (legacy_question_kind (λ s. s) "q1" "what is the root cause?" ≡ process_mechanism)
    × (legacy_question_kind (λ s. s) "q1" "when?" ≡ unsupported)
unfolding legacy_question_kind
legacy_kinds = (refl, refl, refl, refl)
