-- ===== src/Tests/Spc.antt =====
-- The Nelson rules (core/yield_rca_core/spc_engine.py) on whole numbers.
use autonomous_qwen_react.Prelude.{
  ◌+ℤ◌, less, minus, ℕ, suc, ◌*◌, ◌/◌, String, Bool, true, false, List, [], ◌∷◌, All, none, Result,
  ok, if◌then◌else◌, ◌≡◌, refl, ℤ, pos, negsuc, map,
}
use autonomous_qwen_react.Prelude.Sorting.{sorted, insert}
use autonomous_qwen_react.Spc.Samples.{
  Floats, SpcSample, SpcRuleViolation, earlier, window_violation,
}
use autonomous_qwen_react.Spc.Rules.{
  nelson_rules, deviation, evaluate_nelson_rules, add_all_windows, add_windows, unique, put_unique,
  trend, alternating, same_zone, centered, both_sides,
}
use autonomous_qwen_react.Spc.Violations.{
  FlagsOne, Reports, IsUnique, evaluate_nelson_rules-Reports,
}

abbrev negated : ℤ → ℤ
negated (pos a) = minus 0 a
negated (negsuc a) = pos (suc a)

abbrev size_of : ℤ → ℕ
size_of (pos a) = a
size_of (negsuc a) = suc a

abbrev is_negative : ℤ → Bool
is_negative (pos a) = false
is_negative (negsuc a) = true

-- The sign of a product or quotient of numbers of these signs, before its size.
abbrev signed : Bool → Bool → ℕ → ℤ
signed true true n = pos n
signed false false n = pos n
signed _ _ n = negated (pos n)

-- Whole numbers, which are enough for whole values and a sigma of one.
abbrev whole_numbers : Floats ℤ
whole_numbers = record {
  whole = pos;
  sub = λ a b. a +ℤ negated b;
  mul = λ a b. signed (is_negative a) (is_negative b) (size_of a * size_of b);
  div = λ a b. signed (is_negative a) (is_negative b) (size_of a / size_of b);
  neg = negated;
  abs = λ a. pos (size_of a);
  lt = less;
  le = λ a b. if less b a then false else true;
}

abbrev sample : String → String → ℕ → SpcSample ℤ
sample name time v = record {
  sample_id = name;
  lot_id = "L1";
  timestamp = time;
  value = pos v;
  wafer_id = none;
  subgroup_id = none;
}

-- Out of order in time, with one point far above the center line at 10.
abbrev samples : List (SpcSample ℤ)
samples = sample "b" "2026-01-02" 15 ∷ sample "a" "2026-01-01" 10 ∷ sample "c" "2026-01-03" 13 ∷ []

evaluate_nelson_rules-Reports_example :
    (vs : List SpcRuleViolation) × (evaluate_nelson_rules whole_numbers samples
        (pos 10)
        (pos 1)
        "etch rate"
      ≡ ok vs)
    × All
        (FlagsOne whole_numbers "etch rate"
          (deviation whole_numbers (pos 10) (pos 1))
          (nelson_rules whole_numbers)
          (sorted earlier samples))
        vs
    × All
        (Reports whole_numbers "etch rate"
          (deviation whole_numbers (pos 10) (pos 1))
          (sorted earlier samples)
          vs)
        (nelson_rules whole_numbers)
    × IsUnique vs
evaluate_nelson_rules-Reports_example =
    evaluate_nelson_rules-Reports whole_numbers samples (pos 10) (pos 1) "etch rate" refl

-- The evidence of what is reported for the samples.
abbrev evidence_ids : List String
unfolding evaluate_nelson_rules add_all_windows add_windows unique put_unique nelson_rules sorted
    insert earlier window_violation trend alternating same_zone centered both_sides
evidence_ids = elim (evaluate_nelson_rules whole_numbers samples (pos 10) (pos 1) "etch rate") [
  | ok vs ↦ map (λ v. v.evidence_id) vs
  | Result.raise e ↦ []
]

reported : evidence_ids ≡ "EV_SPC_ETCH_RATE_NELSON_1_B" ∷ "EV_SPC_ETCH_RATE_NELSON_5_C" ∷ []
unfolding evidence_ids
reported = refl
