-- ===== src/Spc/Rules.antt =====
-- `evaluate_nelson_rules` of core/yield_rca_core/spc_engine.py.
use autonomous_qwen_react.Prelude.{
  ℕ, String, Bool, true, false, ◌&&◌, List, [], ◌∷◌, ◌++◌, any, all, map, filter, length, take, leb,
  str_eq, Option, none, some, Result, ok, ◌>>◌, raise_if, if◌then◌else◌,
}
use autonomous_qwen_react.Prelude.Sorting.{sorted}
use autonomous_qwen_react.Spc.Samples.{
  Floats, SpcSample, SpcRuleViolation, earlier, window_violation,
}

-- `ModelValidationError`
pub data SpcError : Type 0 where
  not_positive_sigma : SpcError

-- `pairwise(xs)`
abbrev pub pairwise {ℓ} : {A : Type ℓ} → List A → List (A × A)
pairwise [] = []
pairwise (x ∷ []) = []
pairwise (x ∷ y ∷ ys) = (x, y) ∷ pairwise (y ∷ ys)

module _ {F : Type 0} (f : Floats F) where
  -- A call of `add_windows`: the window's size, and what it says of the deviations in a window.
  pub record Rule : Type 0 where
    pub size : ℕ
    pub number : String
    pub description : String
    pub predicate : List F → Option String

  -- `x > n` and `x < -n`
  abbrev pub above : ℕ → F → Bool
  above n x = f.lt (f.whole n) x

  abbrev pub below : ℕ → F → Bool
  below n x = f.lt x (f.neg (f.whole n))

  abbrev pub sided : Bool → Bool → Option String
  sided true low = some "high"
  sided false true = some "low"
  sided false false = none

  abbrev pub when : Bool → String → Option String
  when true s = some s
  when false s = none

  abbrev pub beyond_three : List F → Option String
  beyond_three [] = none
  beyond_three (x ∷ xs) = sided (above 3 x) (below 3 x)

  abbrev pub one_side : List F → Option String
  one_side xs = sided (all (above 0) xs) (all (λ x. f.lt x (f.whole 0)) xs)

  unfoldable pub trend : List F → Option String
  trend xs =
      if all (λ p. f.lt p.0 p.1) (pairwise xs)
      then some "increasing"
      else when (all (λ p. f.lt p.1 p.0) (pairwise xs)) "decreasing"

  unfoldable pub alternating : List F → Option String
  alternating xs =
      when
        (all (λ p. f.lt (f.mul p.0 p.1) (f.whole 0))
          (pairwise (map (λ p. f.sub p.1 p.0) (pairwise xs))))
        "alternating"

  unfoldable pub same_zone : ℕ → ℕ → List F → Option String
  same_zone threshold required xs =
      sided (leb required (length (filter (above threshold) xs)))
        (leb required (length (filter (below threshold) xs)))

  unfoldable pub centered : List F → Option String
  centered xs = when (all (λ x. f.lt (f.abs x) (f.whole 1)) xs) "center"

  unfoldable pub both_sides : List F → Option String
  both_sides xs =
      when (all (λ x. above 1 (f.abs x)) xs && any (above 1) xs && any (below 1) xs) "both_sides"

  -- The calls of `add_windows`, in their order.
  unfoldable pub nelson_rules : List Rule
  nelson_rules =
      record {
        size = 1;
        number = "1";
        description = "One point more than 3 sigma from the center line";
        predicate = beyond_three;
      }
      ∷ record {
        size = 9;
        number = "2";
        description = "Nine consecutive points on the same side of the center line";
        predicate = one_side;
      }
      ∷ record {
        size = 6;
        number = "3";
        description = "Six consecutive points increasing or decreasing";
        predicate = trend;
      }
      ∷ record {
        size = 14;
        number = "4";
        description = "Fourteen consecutive points alternating direction";
        predicate = alternating;
      }
      ∷ record {
        size = 3;
        number = "5";
        description = "Two of three consecutive points more than 2 sigma on the same side";
        predicate = same_zone 2 2;
      }
      ∷ record {
        size = 5;
        number = "6";
        description = "Four of five consecutive points more than 1 sigma on the same side";
        predicate = same_zone 1 4;
      }
      ∷ record {
        size = 15;
        number = "7";
        description = "Fifteen consecutive points within 1 sigma of the center line";
        predicate = centered;
      }
      ∷ record {
        size = 8;
        number = "8";
        description = "Eight consecutive points outside 1 sigma on both sides of the center line";
        predicate = both_sides;
      }
      ∷ []

  -- The violation of a window, if it has a direction.
  abbrev pub judged :
      Rule → String → SpcSample F → List (SpcSample F) → Option String → List SpcRuleViolation
  judged r parameter_name x xs none = []
  judged r parameter_name x xs (some direction) =
      window_violation r.number r.description direction x xs parameter_name ∷ []

  abbrev pub judge : Rule → String → (SpcSample F → F) → List (SpcSample F) → List SpcRuleViolation
  judge r parameter_name z [] = []
  judge r parameter_name z (x ∷ xs) = judged r parameter_name x xs (r.predicate (map z (x ∷ xs)))

  -- `add_windows`: the windows that begin at each sample, if there are enough samples left.
  unfoldable pub add_windows :
      Rule → String → (SpcSample F → F) → List (SpcSample F) → List SpcRuleViolation
  add_windows r parameter_name z [] = []
  add_windows r parameter_name z (x ∷ xs) =
      let rest = add_windows r parameter_name z xs in
      if leb r.size (length (x ∷ xs))
      then judge r parameter_name z (take r.size (x ∷ xs)) ++ rest
      else rest

  unfoldable pub add_all_windows :
      List Rule → String → (SpcSample F → F) → List (SpcSample F) → List SpcRuleViolation
  add_all_windows [] parameter_name z xs = []
  add_all_windows (r ∷ rs) parameter_name z xs =
      add_windows r parameter_name z xs ++ add_all_windows rs parameter_name z xs

-- Whether two violations have one key `(rule_code, end_timestamp)`.
abbrev pub same_key : SpcRuleViolation → SpcRuleViolation → Bool
same_key a b = str_eq a.rule_code b.rule_code && str_eq a.end_timestamp b.end_timestamp

-- `unique[key] = violation`, over the values of `unique`.
unfoldable pub put_unique : SpcRuleViolation → List SpcRuleViolation → List SpcRuleViolation
put_unique v [] = v ∷ []
put_unique v (u ∷ us) = let rest = put_unique v us in if same_key u v then v ∷ us else u ∷ rest

unfoldable pub unique : List SpcRuleViolation → List SpcRuleViolation → List SpcRuleViolation
unique us [] = us
unique us (v ∷ vs) = unique (put_unique v us) vs

module _ {F : Type 0} (f : Floats F) where
  -- `(item.value - center_line) / sigma`
  abbrev pub deviation : F → F → SpcSample F → F
  deviation center_line sigma x = f.div (f.sub x.value center_line) sigma

  unfoldable pub evaluate_nelson_rules :
      List (SpcSample F) → F → F → String → Result SpcError (List SpcRuleViolation)
  evaluate_nelson_rules samples center_line sigma parameter_name = do
    raise_if (f.le sigma (f.whole 0)) SpcError.not_positive_sigma
    ok (
        unique [] (
          add_all_windows f (nelson_rules f) parameter_name (deviation center_line sigma)
            (sorted earlier samples)))
