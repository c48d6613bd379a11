-- ===== src/Questions/Registry.antt =====
-- The registry of core/yield_rca_core/question_capability.py: which actions and which types of evidence
-- may answer a question of each kind. A `frozenset` is a list of its members.
use autonomous_qwen_react.Prelude.{
  String, Bool, true, false, not, ◌&&◌, ◌||◌, List, [], ◌∷◌, any, Option, none, some, non_empty,
  Result, ◌>>◌, raise_if, if◌then◌else◌,
}
use autonomous_qwen_react.Policy.Kinds.{
  ActionKind, same_kind, inspect_defect_pattern, validate_shared_defect_pattern,
  find_shared_exposure, inspect_fdc_spc, validate_historical_case, run_rca_reasoning,
}
use autonomous_qwen_react.Questions.Kinds.{
  QuestionKind, defect_signature, impact_scope, spc_signal, process_mechanism, product_outcome,
  historical_match, tool_history, recipe_history, metrology_correlation, material_trace,
  unsupported, is_some_item,
}

pub record QuestionCapabilityDefinition : Type 0 where
  pub question_kind : QuestionKind
  pub supported : Bool
  pub direct_actions : List ActionKind
  pub supporting_actions : List ActionKind
  pub accepted_evidence_types : List String
  pub closure_evidence_groups : List String
  pub action_contributions : List (ActionKind × List String)
  pub unsupported_reason : Option String
  pub available_alternatives : List String

-- `QUESTION_CAPABILITY_REGISTRY[kind]`
unfoldable pub capability_of : QuestionKind → QuestionCapabilityDefinition
capability_of defect_signature = record {
  question_kind = defect_signature;
  supported = true;
  direct_actions = inspect_defect_pattern ∷ validate_shared_defect_pattern ∷ [];
  supporting_actions = find_shared_exposure ∷ [];
  accepted_evidence_types =
      "defect_signal" ∷ "electrical_failure" ∷ "metrology_deviation" ∷ "negative_signal" ∷ [];
  closure_evidence_groups = "product_signal" ∷ [];
  action_contributions =
      (inspect_defect_pattern, "product_signal" ∷ [])
      ∷ (validate_shared_defect_pattern, "product_signal" ∷ [])
      ∷ (find_shared_exposure, "context" ∷ [])
      ∷ [];
  unsupported_reason = none;
  available_alternatives = [];
}
capability_of impact_scope = record {
  question_kind = impact_scope;
  supported = true;
  direct_actions = find_shared_exposure ∷ [];
  supporting_actions = validate_shared_defect_pattern ∷ [];
  accepted_evidence_types =
      "impact_scope" ∷ "lot_context" ∷ "process_exposure" ∷ "equipment_exposure"
      ∷ "excursion_window" ∷ [];
  closure_evidence_groups = "shared_exposure" ∷ "impact_scope" ∷ [];
  action_contributions =
      (find_shared_exposure, "shared_exposure" ∷ "impact_scope" ∷ [])
      ∷ (validate_shared_defect_pattern, "shared_exposure" ∷ [])
      ∷ [];
  unsupported_reason = none;
  available_alternatives = [];
}
capability_of spc_signal = record {
  question_kind = spc_signal;
  supported = true;
  direct_actions = inspect_fdc_spc ∷ [];
  supporting_actions = find_shared_exposure ∷ [];
  accepted_evidence_types =
      "impact_scope" ∷ "lot_context" ∷ "process_exposure" ∷ "equipment_exposure"
      ∷ "parameter_deviation" ∷ "trend_deviation" ∷ "spc_violation" ∷ "ooc_event"
      ∷ "excursion_window" ∷ [];
  closure_evidence_groups = "shared_exposure" ∷ "process_anomaly" ∷ [];
  action_contributions =
      (inspect_fdc_spc, "process_anomaly" ∷ [])
      ∷ (find_shared_exposure, "shared_exposure" ∷ [])
      ∷ [];
  unsupported_reason = none;
  available_alternatives = [];
}
capability_of process_mechanism = record {
  question_kind = process_mechanism;
  supported = true;
  direct_actions = inspect_fdc_spc ∷ run_rca_reasoning ∷ [];
  supporting_actions =
      inspect_defect_pattern ∷ find_shared_exposure ∷ validate_shared_defect_pattern
      ∷ validate_historical_case ∷ [];
  accepted_evidence_types =
      "impact_scope" ∷ "lot_context" ∷ "process_exposure" ∷ "equipment_exposure"
      ∷ "parameter_deviation" ∷ "trend_deviation" ∷ "spc_violation" ∷ "ooc_event"
      ∷ "excursion_window" ∷ "defect_signal" ∷ "metrology_deviation" ∷ "electrical_failure"
      ∷ "historical_case_match" ∷ [];
  closure_evidence_groups =
      "process_anomaly" ∷ "product_signal" ∷ "shared_exposure" ∷ "shared_product_signal" ∷ [];
  action_contributions =
      (inspect_defect_pattern, "product_signal" ∷ [])
      ∷ (validate_shared_defect_pattern, "shared_product_signal" ∷ [])
      ∷ (find_shared_exposure, "shared_exposure" ∷ [])
      ∷ (inspect_fdc_spc, "process_anomaly" ∷ [])
      ∷ (validate_historical_case, "historical_context" ∷ [])
      ∷ (run_rca_reasoning, "hypothesis_synthesis" ∷ [])
      ∷ [];
  unsupported_reason = none;
  available_alternatives = [];
}
capability_of product_outcome = record {
  question_kind = product_outcome;
  supported = true;
  direct_actions = inspect_defect_pattern ∷ validate_shared_defect_pattern ∷ [];
  supporting_actions = find_shared_exposure ∷ [];
  accepted_evidence_types =
      "electrical_failure" ∷ "defect_signal" ∷ "metrology_deviation" ∷ "negative_signal" ∷ [];
  closure_evidence_groups = "product_signal" ∷ [];
  action_contributions =
      (inspect_defect_pattern, "product_signal" ∷ [])
      ∷ (validate_shared_defect_pattern, "product_signal" ∷ [])
      ∷ [];
  unsupported_reason = none;
  available_alternatives = [];
}
capability_of historical_match = record {
  question_kind = historical_match;
  supported = true;
  direct_actions = validate_historical_case ∷ [];
  supporting_actions =
      find_shared_exposure ∷ inspect_fdc_spc ∷ inspect_defect_pattern
      ∷ validate_shared_defect_pattern ∷ [];
  accepted_evidence_types =
      "historical_case_match" ∷ "lot_context" ∷ "process_exposure" ∷ "equipment_exposure"
      ∷ "excursion_window" ∷ "parameter_deviation" ∷ "trend_deviation" ∷ "spc_violation"
      ∷ "ooc_event" ∷ "defect_signal" ∷ "metrology_deviation" ∷ "electrical_failure"
      ∷ "negative_signal" ∷ [];
  closure_evidence_groups =
      "product_signal" ∷ "shared_exposure" ∷ "shared_product_signal" ∷ "process_anomaly"
      ∷ "historical_context" ∷ [];
  action_contributions =
      (inspect_defect_pattern, "product_signal" ∷ [])
      ∷ (find_shared_exposure, "shared_exposure" ∷ [])
      ∷ (validate_shared_defect_pattern, "shared_product_signal" ∷ [])
      ∷ (inspect_fdc_spc, "process_anomaly" ∷ [])
      ∷ (validate_historical_case, "historical_context" ∷ [])
      ∷ [];
  unsupported_reason = none;
  available_alternatives = [];
}
capability_of tool_history = record {
  question_kind = tool_history;
  supported = true;
  direct_actions = find_shared_exposure ∷ [];
  supporting_actions = inspect_fdc_spc ∷ [];
  accepted_evidence_types =
      "lot_context" ∷ "process_exposure" ∷ "equipment_exposure" ∷ "recipe_change" ∷ "hold_event"
      ∷ [];
  closure_evidence_groups = "lot_context" ∷ "process_exposure" ∷ [];
  action_contributions = (find_shared_exposure, "lot_context" ∷ "process_exposure" ∷ []) ∷ [];
  unsupported_reason = none;
  available_alternatives = [];
}
capability_of recipe_history = record {
  question_kind = recipe_history;
  supported = true;
  direct_actions = find_shared_exposure ∷ [];
  supporting_actions = [];
  accepted_evidence_types = "lot_context" ∷ "recipe_change" ∷ [];
  closure_evidence_groups = "recipe_context" ∷ [];
  action_contributions = (find_shared_exposure, "recipe_context" ∷ []) ∷ [];
  unsupported_reason = none;
  available_alternatives = [];
}
capability_of metrology_correlation = record {
  question_kind = metrology_correlation;
  supported = true;
  direct_actions = inspect_defect_pattern ∷ [];
  supporting_actions = validate_shared_defect_pattern ∷ [];
  accepted_evidence_types = "metrology_deviation" ∷ "negative_signal" ∷ [];
  closure_evidence_groups = "metrology_signal" ∷ [];
  action_contributions =
      (inspect_defect_pattern, "metrology_signal" ∷ [])
      ∷ (validate_shared_defect_pattern, "metrology_signal" ∷ [])
      ∷ [];
  unsupported_reason = none;
  available_alternatives = [];
}
capability_of material_trace = record {
  question_kind = material_trace;
  supported = false;
  direct_actions = [];
  supporting_actions = [];
  accepted_evidence_types = [];
  closure_evidence_groups = "material_trace" ∷ [];
  action_contributions = [];
  unsupported_reason =
      some
        "Material, supplier, and consumable genealogy is not configured in the current RCA deployment.";
  available_alternatives = "MES process exposure" ∷ "FDC process anomaly" ∷ [];
}
capability_of unsupported = record {
  question_kind = unsupported;
  supported = false;
  direct_actions = [];
  supporting_actions = [];
  accepted_evidence_types = [];
  closure_evidence_groups = [];
  action_contributions = [];
  unsupported_reason = some "The legacy Question has no recognized capability kind.";
  available_alternatives = [];
}

-- `kind in definition.allowed_actions`
abbrev pub allows : QuestionCapabilityDefinition → ActionKind → Bool
allows d k = any (same_kind k) d.direct_actions || any (same_kind k) d.supporting_actions

abbrev pub contribution_in : ActionKind → List (ActionKind × List String) → List String
contribution_in k [] = []
contribution_in k ((j, groups) ∷ d) =
    let rest = contribution_in k d in if same_kind j k then groups else rest

-- `definition.contribution_for(kind)`
abbrev pub contribution_for : QuestionCapabilityDefinition → ActionKind → List String
contribution_for d k = contribution_in k d.action_contributions

-- The `ValueError` of the class.
pub data DefinitionError : Type 0 where
  value_error : DefinitionError

-- `bool(reason)`
abbrev has_reason : Option String → Bool
has_reason none = false
has_reason (some reason) = non_empty reason

-- `QuestionCapabilityDefinition.__post_init__`
unfoldable pub check_definition : QuestionCapabilityDefinition → Result DefinitionError (Unit {0})
check_definition d = do
  raise_if (not (is_some_item d.direct_actions || is_some_item d.supporting_actions) && d.supported)
      DefinitionError.value_error
  raise_if (not d.supported && not (has_reason d.unsupported_reason)) DefinitionError.value_error
  raise_if (any (λ c. not (allows d c.0)) d.action_contributions) DefinitionError.value_error
