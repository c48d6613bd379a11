-- ===== src/Causal/Bounded.antt =====
-- What an answer of the language model may change of a comparison (core/yield_rca_core/causal_candidate_comparison.py).
use mathlib.Core.Path.{subst}
use autonomous_qwen_react.Prelude.{
  ℕ, pos, negsuc, ◌<◌, String, true, not, ◌||◌, List, any, length, ltb, ◌==◌, str_eq, Option, none,
  some, Result, ok, ◌>>◌, raise_if, raise_if-eq-ok, >>=-eq-ok, ok-injective, ◌≡◌, refl, arith,
}
use autonomous_qwen_react.Json.{Json, Fields, null, number}
use autonomous_qwen_react.Causal.Scores.{CausalEvidenceMatrix}
use autonomous_qwen_react.Causal.Comparison.{
  EvidenceGap, Comparison, CompareError, invalid_output, compare_candidate_matrices,
  has_expected_keys, value_at, checked_index, check_explanation, checked_gap, bounded, compare,
}

-- No candidate or one of the candidates.
abbrev pub IsInRange : ℕ → Option ℕ → Type 0
IsInRange n none = Unit
IsInRange n (some i) = i < n

-- No gap or one of the gaps.
abbrev pub IsKnownGap : List EvidenceGap → Option String → Type 0
IsKnownGap gaps none = Unit
IsKnownGap gaps (some g) = any (λ h. str_eq g h.gap_id) gaps ≡ true

checked_index-IsInRange :
    (n : ℕ) (j : Json) {i : Option ℕ} → checked_index n j ≡ ok i → IsInRange n i
unfolding checked_index
checked_index-IsInRange n null e = subst (IsInRange n) (ok-injective e) tt
checked_index-IsInRange n (number (negsuc k)) e = cc
checked_index-IsInRange n (Json.float z p) e = cc
checked_index-IsInRange n (number (pos k)) e =
    let (b, q) = raise_if-eq-ok (not (ltb k n)) invalid_output _ e in
    subst (IsInRange n) (ok-injective q) (ground (arith, b))
checked_index-IsInRange n (Json.bool b) e = cc
checked_index-IsInRange n (Json.text s) e = cc
checked_index-IsInRange n (Json.instant t) e = cc
checked_index-IsInRange n (Json.array xs) e = cc
checked_index-IsInRange n (Json.object fs) e = cc

-- What the model's answer cannot change: it chooses among the candidates and the gaps at most.
abbrev pub IsBounded : ℕ → List EvidenceGap → Comparison → Comparison → Type 0
IsBounded n gaps python c =
    IsInRange n c.preferred_candidate_index
    × IsKnownGap gaps c.selected_gap_id
    × (c.scores ≡ python.scores)
    × (c.unresolved ≡ python.unresolved)
    × (c.alternative_search_required ≡ python.alternative_search_required)

module _ (str_of : Json → String) where
  named_gap :
      (gaps : List EvidenceGap) (s : String) {g : Option String}
      → (raise_if (not (any (λ h. str_eq s h.gap_id) gaps)) invalid_output >> ok (some s)) ≡ ok g
      → IsKnownGap gaps g
  named_gap gaps s e =
      let (b, q) =
        raise_if-eq-ok (not (any (λ h. str_eq s h.gap_id) gaps)) invalid_output (ok (some s)) e in
      subst (IsKnownGap gaps) (ok-injective q) (ground (arith, b))

  checked_gap-IsKnownGap :
      (gaps : List EvidenceGap) (j : Json) {g : Option String}
      → checked_gap str_of gaps j ≡ ok g
      → IsKnownGap gaps g
  unfolding checked_gap
  checked_gap-IsKnownGap gaps null e = subst (IsKnownGap gaps) (ok-injective e) tt
  checked_gap-IsKnownGap gaps (number k) e = named_gap gaps (str_of (number k)) e
  checked_gap-IsKnownGap gaps (Json.float z p) e = named_gap gaps (str_of (Json.float z p)) e
  checked_gap-IsKnownGap gaps (Json.bool b) e = named_gap gaps (str_of (Json.bool b)) e
  checked_gap-IsKnownGap gaps (Json.text s) e = named_gap gaps (str_of (Json.text s)) e
  checked_gap-IsKnownGap gaps (Json.instant t) e = named_gap gaps (str_of (Json.instant t)) e
  checked_gap-IsKnownGap gaps (Json.array xs) e = named_gap gaps (str_of (Json.array xs)) e
  checked_gap-IsKnownGap gaps (Json.object fs) e = named_gap gaps (str_of (Json.object fs)) e

  bounded-IsBounded :
      (n : ℕ) (gaps : List EvidenceGap) (python : Comparison) (answer : Fields) {c : Comparison}
      → bounded str_of n gaps python answer ≡ ok c
      → IsBounded n gaps python c
  unfolding bounded
  bounded-IsBounded n gaps python answer e =
      let (_, e1) = raise_if-eq-ok (not (has_expected_keys answer)) invalid_output _ e in
      let (i, p, e2) =
        >>=-eq-ok (checked_index n (value_at "preferred_candidate_index" answer)) _ e1 in
      let (_, _, e3) =
        >>=-eq-ok (check_explanation (value_at "comparison_explanation" answer)) _ e2 in
      let (g, q, e4) =
        >>=-eq-ok (checked_gap str_of gaps (value_at "selected_gap_id" answer)) _ e3 in
      subst (IsBounded n gaps python)
        {x = record python { preferred_candidate_index = i; selected_gap_id = g; source = "qwen" }}
        (ok-injective e4)
        (
          checked_index-IsInRange n (value_at "preferred_candidate_index" answer) p,
          checked_gap-IsKnownGap gaps (value_at "selected_gap_id" answer) q,
          refl,
          refl,
          refl,
        )

  -- Whatever object the language model answers with, negative and too large indices included, a comparison that is returned names no candidate or one of
  -- the candidates, no gap or one of the gaps, and keeps the scores and verdicts of Python.
  pub compare-IsBounded :
      (complete_json : Comparison → Result CompareError Fields) (n : ℕ)
      (ms : List CausalEvidenceMatrix) (gaps : List EvidenceGap) {c : Comparison}
      → compare str_of complete_json n ms gaps ≡ ok c
      → IsBounded n gaps (compare_candidate_matrices ms gaps none) c
  unfolding compare
  compare-IsBounded complete_json n ms gaps e =
      let (_, e1) = raise_if-eq-ok (not (n == length ms) || n == 0) invalid_output _ e in
      let (answer, _, e2) =
        >>=-eq-ok (complete_json (compare_candidate_matrices ms gaps none)) _ e1 in
      bounded-IsBounded n gaps (compare_candidate_matrices ms gaps none) answer e2
