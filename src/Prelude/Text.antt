-- ===== src/Prelude/Text.antt =====
-- Texts as lists of code points, for what the program does character by character.
use Prim.Native.Nat.{ℕ, ◌+◌}
use Prim.Native.Char.{code}
use Prim.Native.String.{String}
use mathlib.Core.Path.{◌≡◌, refl}
use native.Mathlib.Omega.{arith}
use mathlib.Core.Bool.{Bool, true, false, ◌&&◌, ◌||◌}
use mathlib.Core.Option.{Option, none, some}
use mathlib.Core.List.{List, [], ◌∷◌}
use text.Mathlib.Text.{◌==◌ as str_eq}
use autonomous_qwen_react.Prelude.Lists.{any}
use autonomous_qwen_react.Prelude.Tests.{ltb, leb, ◌==◌, if◌then◌else◌}

abbrev pub codes : String → List ℕ
codes String.[] = []
codes (String.◌∷◌ c s) = code c ∷ codes s

-- `bool(text)`
abbrev pub non_empty : String → Bool
non_empty String.[] = false
non_empty (String.◌∷◌ c s) = true

-- `a < b` on texts: by code points, a proper prefix first.
abbrev pub codes_lt : List ℕ → List ℕ → Bool
codes_lt [] [] = false
codes_lt [] (b ∷ bs) = true
codes_lt (a ∷ as') [] = false
codes_lt (a ∷ as') (b ∷ bs) = ltb a b || (a == b && codes_lt as' bs)

-- `text.startswith(prefix)`, on code points.
abbrev pub starts_with : List ℕ → List ℕ → Bool
starts_with [] s = true
starts_with (p ∷ ps) [] = false
starts_with (p ∷ ps) (c ∷ s) = p == c && starts_with ps s

abbrev pub codes_eq : List ℕ → List ℕ → Bool
codes_eq [] [] = true
codes_eq [] (b ∷ bs) = false
codes_eq (a ∷ as') [] = false
codes_eq (a ∷ as') (b ∷ bs) = a == b && codes_eq as' bs

-- `character.lower()` and `character.isalnum()` on ASCII.
abbrev pub lower : ℕ → ℕ
lower c = if leb b'A' c && leb c b'Z' then c + 32 else c

abbrev pub is_alnum : ℕ → Bool
is_alnum c = (leb b'0' c && leb c b'9') || (leb b'A' c && leb c b'Z') || (leb b'a' c && leb c b'z')

pub codes_lt_asym : (a b : List ℕ) → codes_lt a b ≡ true → codes_lt b a ≡ false
codes_lt_asym [] [] h = refl
codes_lt_asym [] (b ∷ bs) h = refl
codes_lt_asym (a ∷ as') [] h = cc
codes_lt_asym (a ∷ as') (b ∷ bs) h = ground (arith, codes_lt_asym as' bs)

-- What is not less is transitive.
pub codes_lt_trans :
    (a b c : List ℕ) → codes_lt a b ≡ false → codes_lt b c ≡ false → codes_lt a c ≡ false
codes_lt_trans [] [] c h k = k
codes_lt_trans [] (b ∷ bs) c h k = cc
codes_lt_trans (a ∷ as') b [] h k = refl
codes_lt_trans (a ∷ as') [] (c ∷ cs) h k = cc
codes_lt_trans (a ∷ as') (b ∷ bs) (c ∷ cs) h k = ground (arith, codes_lt_trans as' bs cs)

-- `len(xs) != len(set(xs))`
abbrev pub has_duplicates : List String → Bool
has_duplicates [] = false
has_duplicates (x ∷ xs) = any (str_eq x) xs || has_duplicates xs

-- `text.removeprefix(prefix)`
abbrev after_prefix : String → String → Option String
after_prefix String.[] s = some s
after_prefix (String.◌∷◌ c p) String.[] = none
after_prefix (String.◌∷◌ c p) (String.◌∷◌ d s) =
    let rest = after_prefix p s in if code c == code d then rest else none

abbrev pub remove_prefix : String → String → String
remove_prefix p s = elim (after_prefix p s) [ none ↦ s | some rest ↦ rest ]

-- `f"{s}{t}"`
abbrev pub joined : String → String → String
joined String.[] t = t
joined (String.◌∷◌ c s) t = String.◌∷◌ c (joined s t)
