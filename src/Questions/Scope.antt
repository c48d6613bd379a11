-- ===== src/Questions/Scope.antt =====
-- When the scope of an action, or of a piece of evidence, fits the scope of a question
-- (core/yield_rca_core/question_capability.py and question_evidence.py). A `set` is a list.
use autonomous_qwen_react.Prelude.{
  String, Bool, true, false, not, ◌&&◌, ◌||◌, List, [], ◌∷◌, ◌++◌, all, str_eq, Dict, get, put,
  Option, none, some, non_empty, if◌then◌else◌,
}
use autonomous_qwen_react.Json.{Json, Items, text, array, item, end, null}
use autonomous_qwen_react.Evidence.Collection.{Evidence, EntityRef}
use autonomous_qwen_react.Policy.Models.{InvestigationAction}
use autonomous_qwen_react.Questions.Kinds.{occurs, is_subset, is_some_item}
use autonomous_qwen_react.Questions.Models.{InvestigationQuestion}

-- The methods of Python's texts that the comparisons use, and `str` of a value.
pub record Texts : Type 0 where
  pub casefold : String → String
  pub upper : String → String
  pub strip : String → String
  pub str_of : Json → String

-- What the links read of a piece of evidence beyond its type and its entities.
pub record Typed : Type 0 where
  pub is_typed : Bool
  pub metadata : Dict Json

-- `{**d, **e}`
abbrev pub merged : Dict Json → Dict Json → Dict Json
merged d [] = d
merged d ((k, v) ∷ e) = merged (put k v d) e

module _ (t : Texts) where
  -- `_normalized` of both files, over their way to ignore the case.
  abbrev pub normalized_text : (String → String) → String → List String
  normalized_text fold s = if non_empty (t.strip s) then fold (t.strip s) ∷ [] else []

  -- What `_normalized` makes of a value, if it makes something.
  abbrev pub normalized_value : (String → String) → Json → List String
  normalized_value fold (text s) = normalized_text fold s
  normalized_value fold _ = []

  abbrev pub normalized_items : (String → String) → Items → List String
  normalized_items fold end = []
  normalized_items fold (item j xs) = normalized_value fold j ++ normalized_items fold xs

  -- The values of a list, or the value.
  abbrev pub normalized_values : (String → String) → Json → List String
  normalized_values fold (array xs) = normalized_items fold xs
  normalized_values fold j = normalized_value fold j

  -- `_values_for_key`
  abbrev pub values_for_key : Dict Json → String → List String
  values_for_key [] key = []
  values_for_key ((k, v) ∷ d) key =
      let rest = values_for_key d key in
      if str_eq (t.casefold k) (t.casefold key) then normalized_values t.upper v ++ rest else rest

  -- `next((value for k, value in d.items() if k.casefold() == key), None)`
  abbrev first_folded : Dict Json → String → Json
  first_folded [] key = null
  first_folded ((k, v) ∷ d) key = if str_eq (t.casefold k) key then v else first_folded d key

  -- `d.get(key)`, with `None` for no entry.
  abbrev entry_or_null : String → Dict Json → Json
  entry_or_null key d = elim (get key d) [ none ↦ null | some v ↦ v ]

  abbrev pub is_null : Json → Bool
  is_null null = true
  is_null _ = false

  -- The value that the action has for the key of a question.
  abbrev action_value : Dict Json → String → Json
  action_value d key =
      if is_null (entry_or_null key d) then first_folded d (t.casefold key) else entry_or_null key d

  abbrev same_value : Json → Json → Bool
  same_value v w = is_null v || str_eq (t.casefold (t.str_of v)) (t.casefold (t.str_of w))

  -- The expected values are among the actual ones, unless one of the two is not given.
  abbrev pub agrees : List String → List String → Bool
  agrees expected actual =
      not (is_some_item expected && is_some_item actual) || is_subset expected actual

  -- One entry of the question's scope, against the scope of the action.
  abbrev pub entry_matches : Dict Json → Dict Json → String → Json → Bool
  entry_matches action_scope scope key v =
      let k = t.casefold key in
      if occurs k ("lot_id" ∷ "source_lot_id" ∷ [])
      then agrees (normalized_value t.upper v) (
          values_for_key action_scope "lot_id"
          ++ values_for_key action_scope "source_lot_id"
          ++ values_for_key action_scope "lot_ids")
      else if str_eq k "lot_ids"
      then agrees (values_for_key scope "lot_ids")
          (values_for_key action_scope "lot_ids" ++ values_for_key action_scope "lot_id")
      else if is_null v
      then true
      else if occurs k ("product_id" ∷ "module" ∷ "operation" ∷ "equipment_id" ∷ "chamber_id" ∷ [])
      then same_value (action_value action_scope key) v
      else true

  -- `action_scope_matches_question`
  unfoldable pub action_scope_matches_question : InvestigationAction → InvestigationQuestion → Bool
  action_scope_matches_question a q =
      all (λ e. entry_matches (merged a.inputs a.scope) q.scope e.0 e.1) q.scope

  -- `_entity_values`
  abbrev pub entity_values : Evidence Typed → String → List String
  entity_values e entity_type = of_refs e.entities
    where
      of_refs : List EntityRef → List String
      of_refs [] = []
      of_refs (r ∷ rs) =
          let rest = of_refs rs in
          if str_eq r.entity_type entity_type
          then normalized_text t.casefold r.entity_id ++ rest
          else rest

  -- `_metadata_values`
  abbrev pub metadata_values : Evidence Typed → List String → List String
  metadata_values e [] = []
  metadata_values e (k ∷ ks) =
      normalized_values t.casefold (entry_or_null k e.payload.metadata) ++ metadata_values e ks

  -- `entity_map.get(key)` of `evidence_scope_matches_question`
  abbrev pub observed : Evidence Typed → String → Option (List String)
  observed e key =
      if occurs key ("lot_id" ∷ "lot_ids" ∷ [])
      then some (entity_values e "lot")
      else if str_eq key "product_id"
      then some (entity_values e "product" ++ metadata_values e ("product_id" ∷ []))
      else if occurs key ("operation" ∷ "operation_no" ∷ [])
      then some
          (entity_values e "operation" ++ metadata_values e ("operation" ∷ "operation_no" ∷ []))
      else if str_eq key "equipment_id"
      then some (entity_values e "equipment" ++ metadata_values e ("equipment_id" ∷ []))
      else if str_eq key "chamber_id"
      then some (entity_values e "chamber" ++ metadata_values e ("chamber_id" ∷ []))
      else none

  abbrev pub entry_is_observed : Evidence Typed → String → Json → Bool
  entry_is_observed e key expected = elim (observed e (t.casefold key)) [
    | none ↦ true
    | some seen ↦ agrees (normalized_values t.casefold expected) seen
  ]

  -- `evidence_scope_matches_question`
  unfoldable pub evidence_scope_matches_question : Evidence Typed → InvestigationQuestion → Bool
  evidence_scope_matches_question e q = all (λ x. entry_is_observed e x.0 x.1) q.scope
