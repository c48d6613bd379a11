-- ===== src/Causal/Scores.antt =====
-- The scores of causal evidence matrices (core/yield_rca_core/causal_candidate_comparison.py).
use autonomous_qwen_react.Prelude.{
  ◌+ℤ◌, String, Bool, false, ◌||◌, List, [], ◌∷◌, map, any, all, str_eq, Option, none, some, Dict,
  get, values, ℤ, pos, negsuc, if◌then◌else◌,
}

-- A `CausalClaimResult`, without the facts that are only passed on.
pub record CausalClaimResult : Type 0 where
  pub status : String
  pub evidence_ids : List String
  pub reason : String
  pub support_source : Option String

-- A `CausalEvidenceMatrix`: its claims, one of which is the mechanism in every matrix that is built.
pub record CausalEvidenceMatrix : Type 0 where
  pub claims : Dict CausalClaimResult

-- `_CRITICAL_CLAIMS`
abbrev pub critical_claims : List String
critical_claims =
    "equipment" ∷ "chamber" ∷ "operation" ∷ "parameter" ∷ "outcome" ∷ "mechanism" ∷ "contradiction"
    ∷ "temporal" ∷ "scope" ∷ []

-- Whether there is a result of a claim, in this status.
abbrev pub is_in_status : String → Option CausalClaimResult → Bool
is_in_status status none = false
is_in_status status (some r) = str_eq r.status status

-- `CausalEvidenceMatrix.status`
unfoldable pub matrix_status : CausalEvidenceMatrix → String
matrix_status m =
    if any (λ c. is_in_status "conflicted" (get c m.claims)) critical_claims
    then "conflicted"
    else if all (λ r. str_eq r.status "unavailable") (values m.claims)
    then "unavailable"
    else if all (λ c. is_in_status "supported" (get c m.claims)) critical_claims
    then "supported"
    else "incomplete"

abbrev pub has_critical_conflict : CausalEvidenceMatrix → Bool
has_critical_conflict m = str_eq (matrix_status m) "conflicted"

-- Whether the mechanism's source is a rule or approved knowledge.
abbrev is_explained : Option CausalClaimResult → Bool
is_explained none = false
is_explained (some r) = elim r.support_source [
  | none ↦ false
  | some s ↦ str_eq s "rule" || str_eq s "approved_knowledge"
]

-- `_STATUS_SCORE.get(status, -2)`
abbrev pub status_score : String → ℤ
status_score s =
    if str_eq s "supported"
    then pos 2
    else if str_eq s "incomplete"
    then pos 1
    else if str_eq s "unavailable"
    then pos 0
    else negsuc 1

abbrev pub sum : List ℤ → ℤ
sum [] = pos 0
sum (x ∷ xs) = x +ℤ sum xs

-- `_matrix_score`
unfoldable pub matrix_score : CausalEvidenceMatrix → ℤ
matrix_score m =
    sum (map (λ r. status_score r.status) (values m.claims))
    +ℤ (if is_explained (get "mechanism" m.claims) then pos 1 else pos 0)
    +ℤ (if has_critical_conflict m then negsuc 4 else pos 0)
