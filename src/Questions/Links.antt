-- ===== src/Questions/Links.antt =====
-- `QuestionEvidenceResolver.resolve` of core/yield_rca_core/question_evidence.py: which produced
-- evidence bears on which question. The texts of the reasons are left out.
use autonomous_qwen_react.Prelude.{
  String, Bool, not, ◌&&◌, ◌||◌, List, [], ◌∷◌, ◌++◌, find, str_eq, Dict, get, put, Option, none,
  some, if◌then◌else◌,
}
use autonomous_qwen_react.Json.{Json, text}
use autonomous_qwen_react.Evidence.Collection.{Evidence}
use autonomous_qwen_react.Policy.Models.{ActionRecord}
use autonomous_qwen_react.Questions.Kinds.{
  QuestionEvidenceRelation, supports, contradicts, no_data, occurs,
}
use autonomous_qwen_react.Questions.Registry.{capability_of, allows, contribution_for}
use autonomous_qwen_react.Questions.Models.{InvestigationQuestion, QuestionEvidenceLink}
use autonomous_qwen_react.Questions.Gate.{groups_or_none}
use autonomous_qwen_react.Questions.Scope.{
  Texts, Typed, action_scope_matches_question, evidence_scope_matches_question,
}

-- `_GROUP_PREFERENCES`
abbrev pub preferences : Dict (List String)
preferences =
    ("defect_signal", "product_signal" ∷ "shared_product_signal" ∷ [])
    ∷ ("electrical_failure", "product_signal" ∷ "shared_product_signal" ∷ [])
    ∷ ("metrology_deviation", "metrology_signal" ∷ "product_signal" ∷ "shared_product_signal" ∷ [])
    ∷ (
      "negative_signal",
      "product_signal" ∷ "shared_product_signal" ∷ "process_anomaly" ∷ "shared_exposure" ∷ "context"
          ∷ [],
    )
    ∷ ("parameter_deviation", "process_anomaly" ∷ [])
    ∷ ("trend_deviation", "process_anomaly" ∷ [])
    ∷ ("spc_violation", "process_anomaly" ∷ [])
    ∷ ("ooc_event", "process_anomaly" ∷ [])
    ∷ ("excursion_window", "process_anomaly" ∷ "shared_exposure" ∷ [])
    ∷ ("impact_scope", "impact_scope" ∷ "shared_exposure" ∷ [])
    ∷ ("lot_context", "shared_exposure" ∷ "lot_context" ∷ [])
    ∷ ("process_exposure", "shared_exposure" ∷ [])
    ∷ ("equipment_exposure", "shared_exposure" ∷ [])
    ∷ ("recipe_change", "recipe_context" ∷ [])
    ∷ ("hold_event", "lot_context" ∷ [])
    ∷ ("historical_case_match", "historical_context" ∷ [])
    ∷ []

-- `_GROUP_PREFERENCES.get(evidence_type, ())`
unfoldable pub group_preferences : String → List String
group_preferences type = groups_or_none (get type preferences)

-- `evidence.evidence_type or ""`
abbrev pub type_of : Evidence Typed → String
type_of e = elim e.evidence_type [ none ↦ "" | some s ↦ s ]

abbrev pub context_group : List String → Option String
context_group groups = if occurs "context" groups then some "context" else none

-- The first preferred group among these, or `context`.
unfoldable pub group_of_type : String → List String → Option String
group_of_type type groups = elim (find (λ p. occurs p groups) (group_preferences type)) [
  | none ↦ context_group groups
  | some preferred ↦ some preferred
]

-- `_matched_group`
abbrev pub matched_group : Evidence Typed → List String → Option String
matched_group e groups = group_of_type (type_of e) groups

-- `evidence_by_id`
abbrev pub by_id : List (Evidence Typed) → Dict (Evidence Typed) → Dict (Evidence Typed)
by_id [] d = d
by_id (e ∷ es) d = by_id es (put e.evidence_id e d)

-- The relation that the metadata of the evidence states.
abbrev pub stated_relation : Option Json → QuestionEvidenceRelation
stated_relation (some (text s)) = if str_eq s "contradicts" then contradicts else supports
stated_relation _ = supports

module _ (t : Texts) (r : ActionRecord) where
  abbrev pub link :
      InvestigationQuestion
      → Evidence Typed
      → QuestionEvidenceRelation
      → String
      → QuestionEvidenceLink
  link q e relation group = record {
    question_id = q.question_id;
    evidence_id = e.evidence_id;
    action_id = r.action.action_id;
    relation = relation;
    matched_evidence_group = group;
  }

  abbrev pub of_group :
      InvestigationQuestion → Evidence Typed → Option String → List QuestionEvidenceLink
  of_group q e none = []
  of_group q e (some group) =
      link q e (stated_relation (get "relation" e.payload.metadata)) group ∷ []

  -- The links of typed evidence whose scope fits the question: one at most.
  unfoldable pub links_of_type : InvestigationQuestion → Evidence Typed → List QuestionEvidenceLink
  links_of_type q e =
      if str_eq (type_of e) "data_missing"
      then link q e no_data "data_unavailable" ∷ []
      else if not (occurs (type_of e) (capability_of q.question_kind).accepted_evidence_types)
      then []
      else of_group q e
          (matched_group e (contribution_for (capability_of q.question_kind) r.action.kind))

  unfoldable pub links_of_item :
      InvestigationQuestion → Option (Evidence Typed) → List QuestionEvidenceLink
  links_of_item q none = []
  links_of_item q (some e) =
      if not e.payload.is_typed || not (evidence_scope_matches_question t e q)
      then []
      else links_of_type q e

  -- The links of a question to the produced evidence.
  abbrev pub links_of_ids :
      InvestigationQuestion → Dict (Evidence Typed) → List String → List QuestionEvidenceLink
  links_of_ids q d [] = []
  links_of_ids q d (i ∷ is) = links_of_item q (get i d) ++ links_of_ids q d is

  -- Whether the action may bear on the question at all.
  abbrev pub is_applicable : InvestigationQuestion → Bool
  is_applicable q =
      (capability_of q.question_kind).supported
      && allows (capability_of q.question_kind) r.action.kind
      && action_scope_matches_question t r.action q

  -- The loop of `resolve` over the questions.
  abbrev pub resolve_each :
      Dict (Evidence Typed) → List InvestigationQuestion → List QuestionEvidenceLink
  resolve_each d [] = []
  resolve_each d (q ∷ qs) =
      let rest = resolve_each d qs in
      if is_applicable q then links_of_ids q d r.produced_evidence_ids ++ rest else rest

  -- `QuestionEvidenceResolver.resolve`
  unfoldable pub resolve :
      List InvestigationQuestion → List (Evidence Typed) → List QuestionEvidenceLink
  resolve qs evidence = resolve_each (by_id evidence []) qs
