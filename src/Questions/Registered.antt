-- ===== src/Questions/Registered.antt =====
-- The registry of core/yield_rca_core/question_capability.py passes its own checks.
use autonomous_qwen_react.Prelude.{String, Bool, true, ◌&&◌, ◌||◌, not, any, all, ok, ◌≡◌, refl}
use autonomous_qwen_react.Questions.Kinds.{
  QuestionKind, defect_signature, impact_scope, spc_signal, process_mechanism, product_outcome,
  historical_match, tool_history, recipe_history, metrology_correlation, material_trace,
  unsupported, occurs,
}
use autonomous_qwen_react.Questions.Registry.{
  QuestionCapabilityDefinition, capability_of, check_definition, allows,
}

-- An allowed action contributes to the group.
abbrev pub is_contributed : QuestionCapabilityDefinition → String → Bool
is_contributed d g = any (λ c. allows d c.0 && occurs g c.1) d.action_contributions

-- Every kind is registered under itself, with a definition that passes the checks of its class; and where the kind
-- is supported, an allowed action contributes to each group that closes a question.
pub capability_of-checked :
    (kind : QuestionKind)
    → ((capability_of kind).question_kind ≡ kind)
      × (check_definition (capability_of kind) ≡ ok tt)
      × ((not (capability_of kind).supported
            || all
                (is_contributed (capability_of kind))
                (capability_of kind).closure_evidence_groups)
          ≡ true)
unfolding capability_of check_definition
capability_of-checked defect_signature = (refl, refl, refl)
capability_of-checked impact_scope = (refl, refl, refl)
capability_of-checked spc_signal = (refl, refl, refl)
capability_of-checked process_mechanism = (refl, refl, refl)
capability_of-checked product_outcome = (refl, refl, refl)
capability_of-checked historical_match = (refl, refl, refl)
capability_of-checked tool_history = (refl, refl, refl)
capability_of-checked recipe_history = (refl, refl, refl)
capability_of-checked metrology_correlation = (refl, refl, refl)
capability_of-checked material_trace = (refl, refl, refl)
capability_of-checked unsupported = (refl, refl, refl)
