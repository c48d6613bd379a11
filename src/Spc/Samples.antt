-- ===== src/Spc/Samples.antt =====
-- `SpcSample` and `SpcRuleViolation` of core/yield_rca_core/spc_models.py, and how
-- core/yield_rca_core/spc_engine.py makes a violation of a window of samples.
use Prim.Native.Char.{Char, code}
use autonomous_qwen_react.Prelude.{
  ℕ, String, Bool, ◌&&◌, ◌||◌, List, [], ◌∷◌, any, map, joined, str_eq, codes, codes_lt, ◌==◌,
  Option, none, some, if◌then◌else◌,
}

-- The numbers of Python that are no integers: what the rules do with them, and nothing of their laws.
pub record Floats (F : Type 0) : Type 0 where
  pub whole : ℕ → F
  pub sub : F → F → F
  pub mul : F → F → F
  pub div : F → F → F
  pub neg : F → F
  pub abs : F → F
  pub lt : F → F → Bool
  pub le : F → F → Bool

pub record SpcSample (F : Type 0) : Type 0 where
  pub sample_id : String
  pub lot_id : String
  pub timestamp : String
  pub value : F
  pub wafer_id : Option String
  pub subgroup_id : Option String

pub record SpcRuleViolation : Type 0 where
  pub rule_code : String
  pub description : String
  pub direction : String
  pub sample_ids : List String
  pub lot_ids : List String
  pub wafer_ids : List String
  pub start_timestamp : String
  pub end_timestamp : String
  pub evidence_id : String

-- The character at the place of `c` in the first text, of the second.
abbrev translated : String → String → Char → Char
translated (String.◌∷◌ a as') (String.◌∷◌ b bs) c =
    if code a == code c then b else translated as' bs c
translated _ _ c = c

-- `text.upper().replace(old, "_")`, on ASCII.
abbrev pub normalized : String → String → String
normalized old String.[] = String.[]
normalized old (String.◌∷◌ c s) =
    String.◌∷◌
      (translated (joined "abcdefghijklmnopqrstuvwxyz" old) "ABCDEFGHIJKLMNOPQRSTUVWXYZ_" c)
      (normalized old s)

-- `list(dict.fromkeys(xs))`: the first occurrences, after those of `seen`.
abbrev pub first_occurrences : List String → List String → List String
first_occurrences seen [] = []
first_occurrences seen (x ∷ xs) =
    let rest = first_occurrences seen xs in
    let rest' = first_occurrences (x ∷ seen) xs in if any (str_eq x) seen then rest else x ∷ rest'

module _ {F : Type 0} where
  -- The order of the sort keys `(timestamp, sample_id)`.
  unfoldable pub earlier : SpcSample F → SpcSample F → Bool
  earlier a b =
      codes_lt (codes a.timestamp) (codes b.timestamp)
      || (str_eq a.timestamp b.timestamp && codes_lt (codes a.sample_id) (codes b.sample_id))

  abbrev pub wafers : List (SpcSample F) → List String
  wafers [] = []
  wafers (x ∷ xs) =
      let rest = wafers xs in
      elim x.wafer_id [ none ↦ rest | some w ↦ if str_eq w "" then rest else w ∷ rest ]

  -- `samples[-1]`, of samples that begin with `x`.
  abbrev pub last_of : SpcSample F → List (SpcSample F) → SpcSample F
  last_of x [] = x
  last_of x (y ∷ ys) = last_of y ys

  -- `_window_violation`, of the window `x ∷ xs`. As it holds a sample, the checks of the class pass.
  unfoldable pub window_violation :
      String → String → String → SpcSample F → List (SpcSample F) → String → SpcRuleViolation
  window_violation rule_number description direction x xs parameter_name = record {
    rule_code = joined "NELSON_" rule_number;
    description = description;
    direction = direction;
    sample_ids = map (λ s. s.sample_id) (x ∷ xs);
    lot_ids = first_occurrences [] (map (λ s. s.lot_id) (x ∷ xs));
    wafer_ids = first_occurrences [] (wafers (x ∷ xs));
    start_timestamp = x.timestamp;
    end_timestamp = (last_of x xs).timestamp;
    evidence_id = joined "EV_SPC_" (
        joined (normalized " " parameter_name) (
          joined "_NELSON_"
            (joined rule_number (joined "_" (normalized ":" (last_of x xs).sample_id)))));
  }
