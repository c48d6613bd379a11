-- ===== src/Causal/Comparison.antt =====
-- `compare_candidate_matrices` and `QwenHypothesisCandidateComparator.compare` of
-- core/yield_rca_core/causal_candidate_comparison.py. The texts of the explanations and
-- the search status that is only passed on are left out.
-- `complete_json` stands for the call of the language model, and `str_of` for `str`.
use autonomous_qwen_react.Prelude.{
  less, ℕ, suc, String, Bool, true, false, not, ◌&&◌, ◌||◌, List, [], ◌∷◌, map, any, all, find,
  length, ltb, ◌==◌, str_eq, Option, none, some, ℤ, pos, negsuc, Result, ok, raise, ◌>>=◌, ◌>>◌,
  raise_if, if◌then◌else◌,
}
use autonomous_qwen_react.Json.{Json, Fields, null, number, text, field, nil}
use autonomous_qwen_react.Policy.Models.{is_filled}
use autonomous_qwen_react.Causal.Scores.{CausalEvidenceMatrix, matrix_score}

-- An evidence gap: its identifier as `str` makes it, and its candidate.
pub record EvidenceGap : Type 0 where
  pub gap_id : String
  pub candidate_index : Option ℕ

pub record Comparison : Type 0 where
  pub preferred_candidate_index : Option ℕ
  pub selected_gap_id : Option String
  pub scores : List ℤ
  pub unresolved : Bool
  pub alternative_search_required : Bool
  pub source : String

-- `max(scores)`, of scores that begin with `x`.
abbrev pub maximum : ℤ → List ℤ → ℤ
maximum x [] = x
maximum x (y ∷ ys) = let m = maximum y ys in if less x m then m else x

-- The indices, from `i` on, of the scores that are the best one.
abbrev pub winners : ℤ → ℕ → List ℤ → List ℕ
winners best i [] = []
winners best i (x ∷ xs) =
    let rest = winners best (suc i) xs in if less x best || less best x then rest else i ∷ rest

-- `winners[0] if len(winners) == 1 else None`
abbrev pub only : List ℕ → Option ℕ
only (i ∷ []) = some i
only _ = none

abbrev pub is_of : Option ℕ → EvidenceGap → Bool
is_of none g = false
is_of (some i) g = elim g.candidate_index [ none ↦ false | some j ↦ j == i ]

abbrev pub gap_id_of : Option EvidenceGap → Option String
gap_id_of none = none
gap_id_of (some g) = some g.gap_id

abbrev pub requires_search : Option String → Bool
requires_search none = false
requires_search (some s) = not (str_eq s "alternatives_eliminated")

abbrev is_tied : Option ℕ → Bool
is_tied none = true
is_tied (some i) = false

abbrev pub preferred : List ℤ → Option ℕ
preferred [] = none
preferred (x ∷ xs) = only (winners (maximum x xs) 0 (x ∷ xs))

unfoldable pub compare_candidate_matrices :
    List CausalEvidenceMatrix → List EvidenceGap → Option String → Comparison
compare_candidate_matrices [] gaps status = record {
  preferred_candidate_index = none;
  selected_gap_id = none;
  scores = [];
  unresolved = false;
  alternative_search_required = false;
  source = "python";
}
compare_candidate_matrices (m ∷ ms) gaps status =
    let scores = map matrix_score (m ∷ ms) in
    record {
      preferred_candidate_index = preferred scores;
      selected_gap_id = gap_id_of (find (is_of (preferred scores)) gaps);
      scores = scores;
      unresolved =
          (is_tied (preferred scores) && ltb 1 (length (m ∷ ms))) || requires_search status;
      alternative_search_required = requires_search status;
      source = "python";
    }

-- `LLMOutputValidationError`, or what the call of the language model raises.
pub data CompareError : Type 0 where
  invalid_output call_failed : CompareError

abbrev pub key_names : Fields → List String
key_names nil = []
key_names (field k v fs) = k ∷ key_names fs

abbrev pub expected_keys : List String
expected_keys = "preferred_candidate_index" ∷ "comparison_explanation" ∷ "selected_gap_id" ∷ []

-- `set(data) == expected`
unfoldable pub has_expected_keys : Fields → Bool
has_expected_keys fs =
    all (λ k. any (str_eq k) expected_keys) (key_names fs)
    && all (λ k. any (str_eq k) (key_names fs)) expected_keys

abbrev pub value_at : String → Fields → Json
value_at key nil = null
value_at key (field k v fs) = if str_eq k key then v else value_at key fs

-- The index, if it is `None` or one of the candidates.
unfoldable pub checked_index : ℕ → Json → Result CompareError (Option ℕ)
checked_index candidates null = ok none
checked_index candidates (number (pos i)) = do
  raise_if (not (ltb i candidates)) CompareError.invalid_output
  ok (some i)
checked_index candidates (number (negsuc n)) = raise CompareError.invalid_output
checked_index candidates _ = raise CompareError.invalid_output

abbrev pub check_explanation : Json → Result CompareError (Unit {0})
check_explanation (text s) = raise_if (not (is_filled s)) CompareError.invalid_output
check_explanation _ = raise CompareError.invalid_output

module _ (str_of : Json → String) where
  -- The identifier of the gap, if it is `None` or that of a gap.
  unfoldable pub checked_gap : List EvidenceGap → Json → Result CompareError (Option String)
  checked_gap gaps null = ok none
  checked_gap gaps j = do
    raise_if (not (any (λ g. str_eq (str_of j) g.gap_id) gaps)) CompareError.invalid_output
    ok (some (str_of j))

  -- What `compare` makes of the model's answer and of Python's comparison.
  unfoldable pub bounded :
      ℕ → List EvidenceGap → Comparison → Fields → Result CompareError Comparison
  bounded candidates gaps python answer = do
    raise_if (not (has_expected_keys answer)) CompareError.invalid_output
    index ← checked_index candidates (value_at "preferred_candidate_index" answer)
    check_explanation (value_at "comparison_explanation" answer)
    gap ← checked_gap gaps (value_at "selected_gap_id" answer)
    ok (record python { preferred_candidate_index = index; selected_gap_id = gap; source = "qwen" })

  -- `compare`, of as many candidates as `candidates`.
  unfoldable pub compare :
      (Comparison → Result CompareError Fields)
      → ℕ
      → List CausalEvidenceMatrix
      → List EvidenceGap
      → Result CompareError Comparison
  compare complete_json candidates matrices gaps = do
    raise_if (not (candidates == length matrices) || candidates == 0) CompareError.invalid_output
    answer ← complete_json (compare_candidate_matrices matrices gaps none)
    bounded candidates gaps (compare_candidate_matrices matrices gaps none) answer
