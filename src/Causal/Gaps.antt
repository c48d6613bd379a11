-- ===== src/Causal/Gaps.antt =====
-- `build_causal_evidence_gaps` and `build_hypothesis_discrimination_gaps` of
-- core/yield_rca_core/causal_evidence_gap.py. `decimal` stands for `str` of an index.
use autonomous_qwen_react.Prelude.{
  ℕ, suc, String, Bool, not, ◌&&◌, ◌||◌, List, [], ◌∷◌, ◌++◌, any, filter, ltb, ◌==◌, joined,
  str_eq, codes, codes_lt, Dict, get, Option, none, some, if◌then◌else◌,
}
use autonomous_qwen_react.Prelude.Sorting.{sorted}
use autonomous_qwen_react.Policy.Kinds.{ActionKind, same_kind, kind_value}
use autonomous_qwen_react.Questions.Kinds.{
  QuestionKind, impact_scope, spc_signal, product_outcome, process_mechanism, occurs, meets,
  is_some_item,
}
use autonomous_qwen_react.Questions.Registry.{
  QuestionCapabilityDefinition, capability_of, contribution_for,
}
use autonomous_qwen_react.Questions.Gate.{groups_or_none}
use autonomous_qwen_react.Causal.Scores.{CausalClaimResult, CausalEvidenceMatrix}

-- One gap, the `dict` of the code.
pub record CausalGap : Type 0 where
  pub gap_id : String
  pub gap_type : String
  pub priority : ℕ
  pub candidate_index : ℕ
  pub claim : String
  pub status : String
  pub reason : String
  pub question_kind : QuestionKind
  pub allowed_actions : List ActionKind
  pub evidence_ids : List String

-- `_GAP_PRIORITY[gap_type]`, of the types that are used.
abbrev pub gap_priority : String → ℕ
gap_priority s =
    if str_eq s "data_missing"
    then 0
    else if str_eq s "hypothesis_discrimination"
    then 1
    else if str_eq s "contradiction"
    then 2
    else 3

-- `_CLAIM_TO_QUESTION`
abbrev pub claim_questions : Dict QuestionKind
claim_questions =
    ("equipment", impact_scope)
    ∷ ("chamber", impact_scope)
    ∷ ("operation", impact_scope)
    ∷ ("parameter", spc_signal)
    ∷ ("outcome", product_outcome)
    ∷ ("mechanism", process_mechanism)
    ∷ ("temporal", spc_signal)
    ∷ ("scope", impact_scope)
    ∷ ("contradiction", process_mechanism)
    ∷ []

-- `_CLAIM_TO_GROUPS`
abbrev pub claim_groups : Dict (List String)
claim_groups =
    ("equipment", "shared_exposure" ∷ [])
    ∷ ("chamber", "shared_exposure" ∷ [])
    ∷ ("operation", "shared_exposure" ∷ [])
    ∷ ("parameter", "process_anomaly" ∷ [])
    ∷ ("outcome", "product_signal" ∷ [])
    ∷ ("mechanism", "process_anomaly" ∷ "historical_context" ∷ [])
    ∷ ("temporal", "process_anomaly" ∷ "shared_exposure" ∷ [])
    ∷ ("scope", "shared_exposure" ∷ "impact_scope" ∷ [])
    ∷ ("contradiction", "process_anomaly" ∷ "product_signal" ∷ [])
    ∷ []

abbrev pub or_mechanism : Option QuestionKind → QuestionKind
or_mechanism none = process_mechanism
or_mechanism (some k) = k

-- `_CLAIM_TO_QUESTION.get(claim, "process_mechanism")`
unfoldable pub question_for : String → QuestionKind
question_for claim = or_mechanism (get claim claim_questions)

-- `_CLAIM_TO_GROUPS.get(claim, set())`
unfoldable pub expected_groups : String → List String
expected_groups claim = groups_or_none (get claim claim_groups)

-- `definition.allowed_actions`
abbrev pub allowed_actions_of : QuestionCapabilityDefinition → List ActionKind
allowed_actions_of d =
    d.direct_actions ++ filter (λ k. not (any (same_kind k) d.direct_actions)) d.supporting_actions

abbrev pub earlier_kind : ActionKind → ActionKind → Bool
earlier_kind a b = codes_lt (codes (kind_value a)) (codes (kind_value b))

-- Whether the action contributes to one of these groups, or there are none.
abbrev pub is_expected : QuestionCapabilityDefinition → List String → ActionKind → Bool
is_expected d groups k = not (is_some_item groups) || meets groups (contribution_for d k)

-- The actions that a gap of the claim allows.
unfoldable pub actions_for : String → List ActionKind
actions_for claim =
    let d = capability_of (question_for claim) in
    sorted earlier_kind (filter (is_expected d (expected_groups claim)) (allowed_actions_of d))

abbrev pub gap_type_of : String → String → String
gap_type_of claim status =
    if str_eq status "unavailable"
    then "data_missing"
    else if str_eq claim "contradiction"
    then "contradiction"
    else "missing_support"

-- The claims without a gap: the control, and what is supported.
abbrev pub is_exempt : String → CausalClaimResult → Bool
is_exempt claim r = str_eq claim "control" || str_eq r.status "supported"

-- The key of the final order.
abbrev pub gap_before : CausalGap → CausalGap → Bool
gap_before a b =
    ltb a.priority b.priority
    || (a.priority == b.priority
        && (ltb a.candidate_index b.candidate_index
            || (a.candidate_index == b.candidate_index
                && codes_lt (codes a.claim) (codes b.claim))))

module _ (decimal : ℕ → String) where
  abbrev pub gap_of : ℕ → String → CausalClaimResult → CausalGap
  gap_of i claim r = record {
    gap_id =
        joined "candidate_" (joined (decimal i) (joined "." (joined claim (joined "." r.status))));
    gap_type = gap_type_of claim r.status;
    priority = gap_priority (gap_type_of claim r.status);
    candidate_index = i;
    claim = claim;
    status = r.status;
    reason = r.reason;
    question_kind = question_for claim;
    allowed_actions = actions_for claim;
    evidence_ids = r.evidence_ids;
  }

  -- The gaps of the claims of candidate `i`.
  abbrev pub gaps_of_claims : ℕ → Dict CausalClaimResult → List CausalGap
  gaps_of_claims i [] = []
  gaps_of_claims i ((claim, r) ∷ claims) =
      let rest = gaps_of_claims i claims in
      if is_exempt claim r then rest else gap_of i claim r ∷ rest

  -- The gaps of the candidates, from `i` on.
  abbrev pub gaps_of_matrices : ℕ → List CausalEvidenceMatrix → List CausalGap
  gaps_of_matrices i [] = []
  gaps_of_matrices i (m ∷ ms) = gaps_of_claims i m.claims ++ gaps_of_matrices (suc i) ms

  -- `build_causal_evidence_gaps`
  unfoldable pub build_causal_evidence_gaps : List CausalEvidenceMatrix → List CausalGap
  build_causal_evidence_gaps ms = sorted gap_before (gaps_of_matrices 0 ms)

  -- A gap between a candidate and its competitors, with `challenge_selected`.
  abbrev pub discrimination_gap : List String → ℕ → CausalGap × Bool
  discrimination_gap challenged i =
      let gap_id = joined "candidate_" (joined (decimal i) ".hypothesis_discrimination") in
      (
        record {
          gap_id = gap_id;
          gap_type = "hypothesis_discrimination";
          priority = gap_priority "hypothesis_discrimination";
          candidate_index = i;
          claim = "hypothesis_discrimination";
          status = "unresolved";
          reason =
              "The candidate has not completed an adversarial search that distinguishes it from the strongest competing explanation.";
          question_kind = process_mechanism;
          allowed_actions =
              sorted earlier_kind (allowed_actions_of (capability_of process_mechanism));
          evidence_ids = [];
        },
        occurs gap_id challenged,
      )

  abbrev pub discrimination_gaps :
      List String → ℕ → List CausalEvidenceMatrix → List (CausalGap × Bool)
  discrimination_gaps challenged i [] = []
  discrimination_gaps challenged i (m ∷ ms) =
      discrimination_gap challenged i ∷ discrimination_gaps challenged (suc i) ms

  -- `build_hypothesis_discrimination_gaps`, of the identifiers in `distinguishing_gap_ids`.
  unfoldable pub build_hypothesis_discrimination_gaps :
      List CausalEvidenceMatrix → String → List String → List (CausalGap × Bool)
  build_hypothesis_discrimination_gaps ms status challenged =
      let gaps = discrimination_gaps challenged 0 ms in
      if str_eq status "alternatives_eliminated" then [] else gaps
