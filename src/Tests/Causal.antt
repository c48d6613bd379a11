-- ===== src/Tests/Causal.antt =====
-- The comparison of causal candidates (core/yield_rca_core/causal_candidate_comparison.py), and their gaps
-- (causal_evidence_gap.py beside it).
use autonomous_qwen_react.Prelude.{
  ℕ, zero, suc, All, true, get, values, String, List, [], ◌∷◌, map, none, some, ℤ, pos, negsuc, ok,
  ◌≡◌, refl,
}
use autonomous_qwen_react.Prelude.Sorting.{sorted, insert, Ordered}
use autonomous_qwen_react.Causal.Gaps.{gap_before, build_causal_evidence_gaps}
use autonomous_qwen_react.Causal.Covered.{
  IsGapOf, all_covered, build_causal_evidence_gaps-IsComplete,
}
use autonomous_qwen_react.Json.{Json, Fields, null, number, text, field, nil}
use autonomous_qwen_react.Causal.Scores.{
  CausalEvidenceMatrix, CausalClaimResult, matrix_status, matrix_score,
}
use autonomous_qwen_react.Causal.Comparison.{
  EvidenceGap, compare_candidate_matrices, compare, bounded, checked_index, checked_gap,
  has_expected_keys,
}
use autonomous_qwen_react.Causal.Best.{IsStrictBest, compare_candidate_matrices-IsStrictBest}
use autonomous_qwen_react.Causal.Bounded.{IsBounded, compare-IsBounded}

abbrev claim : String → CausalClaimResult
claim s = record { status = s; evidence_ids = []; reason = ""; support_source = none }

abbrev ruled : String → CausalClaimResult
ruled s = record { status = s; evidence_ids = []; reason = ""; support_source = some "rule" }

-- One candidate in conflict, and one that is not.
abbrev matrices : List CausalEvidenceMatrix
matrices =
    record { claims = ("outcome", claim "supported") ∷ ("mechanism", ruled "conflicted") ∷ [] }
    ∷ record { claims = ("outcome", claim "supported") ∷ ("mechanism", ruled "incomplete") ∷ [] }
    ∷ []

abbrev gaps : List EvidenceGap
gaps = record { gap_id = "G1"; candidate_index = some 1 } ∷ []

abbrev text_of : Json → String
text_of (text s) = s
text_of _ = ""

abbrev answer : Fields
answer =
    field "preferred_candidate_index" (number (pos 0))
      (field "comparison_explanation" (text "The first one.") (field "selected_gap_id" null nil))

scored : map matrix_score matrices ≡ negsuc 3 ∷ pos 4 ∷ []
unfolding matrix_score matrix_status get values
scored = refl

compare_candidate_matrices-IsStrictBest_example :
    (best : ℤ) × IsStrictBest best 1 (map matrix_score matrices)
unfolding compare_candidate_matrices matrix_score matrix_status get values
compare_candidate_matrices-IsStrictBest_example =
    compare_candidate_matrices-IsStrictBest matrices gaps none 1 refl

compare-IsBounded_example :
    IsBounded 2 gaps
      (compare_candidate_matrices matrices gaps none)
      (record (compare_candidate_matrices matrices gaps none) {
        preferred_candidate_index = some 0;
        selected_gap_id = none;
        source = "qwen";
      })
unfolding compare bounded checked_index checked_gap has_expected_keys
compare-IsBounded_example = compare-IsBounded text_of (λ c. ok answer) 2 matrices gaps refl

abbrev digits : ℕ → String
digits zero = "0"
digits (suc n) = "1"

-- The conflict of the first candidate, and what the second one lacks.
listed :
    map (λ g. g.gap_id) (build_causal_evidence_gaps digits matrices)
    ≡ "candidate_0.mechanism.conflicted" ∷ "candidate_1.mechanism.incomplete" ∷ []
unfolding build_causal_evidence_gaps sorted insert
listed = refl

build_causal_evidence_gaps-IsComplete_example :
    Ordered gap_before (build_causal_evidence_gaps digits matrices)
    × All (IsGapOf matrices) (build_causal_evidence_gaps digits matrices)
    × (all_covered 0 matrices (build_causal_evidence_gaps digits matrices) ≡ true)
build_causal_evidence_gaps-IsComplete_example =
    build_causal_evidence_gaps-IsComplete digits matrices
