-- ===== src/Prelude/Dicts.antt =====
-- A Python `dict` with text keys: an association list in insertion order.
use Prim.Native.String.{String}
use text.Mathlib.Text.{◌==◌ as str_eq}
use text.Mathlib.TextEquality.{eq_iff}
use mathlib.Core.Path.{◌≡◌, refl, subst₂}
use mathlib.Core.List.{List, [], ◌∷◌}
use mathlib.Core.Option.{Option, none, some}
use native.Mathlib.Omega.{arith}
use text.Mathlib.TextPositions.{eq_refl}
use mathlib.Core.Logic.{inl, inr}
use autonomous_qwen_react.Prelude.Tests.{if◌then◌else◌, Bool-cases}
use autonomous_qwen_react.Prelude.Lists.{All}

abbrev pub Dict {ℓ} : Type ℓ → Type ℓ
Dict V = List (String × V)

pub some_inj {ℓ} : {A : Type ℓ} {a b : A} → some a ≡ some b → a ≡ b
some_inj h = cc

module _ {ℓ} {V : Type ℓ} where
  -- `d.get(key)`
  unfoldable pub get : String → Dict V → Option V
  get key [] = none
  get key ((k, v) ∷ d) = if str_eq k key then some v else get key d

  -- `d[key] = v`: a key that is present keeps its place, a new one goes to the end.
  unfoldable pub put : String → V → Dict V → Dict V
  put key v [] = (key, v) ∷ []
  put key v ((k, w) ∷ d) = if str_eq k key then (k, v) ∷ d else (k, w) ∷ put key v d

  -- `d.values()`
  unfoldable pub values : Dict V → List V
  values [] = []
  values ((k, v) ∷ d) = v ∷ values d

  pub get-put :
      (k j : String) (v : V) (d : Dict V)
      → get j (put k v d) ≡ (if str_eq k j then some v else get j d)
  unfolding get put
  get-put k j v [] = refl
  get-put k j v ((i, w) ∷ d) = ground (arith, eq_iff k j, eq_iff i k, eq_iff i j, get-put k j v d)

  -- No key occurs twice, as in every `dict`.
  abbrev pub Distinct : Dict V → Type ℓ
  Distinct [] = Unit
  Distinct ((k, v) ∷ d) = (get k d ≡ none) × Distinct d

  pub put-Distinct : (k : String) (v : V) (d : Dict V) → Distinct d → Distinct (put k v d)
  unfolding put get
  put-Distinct k v [] h = (refl, tt)
  put-Distinct k v ((i, w) ∷ d) h = elim (Bool-cases (str_eq i k)) [
    | inl e ↦ rw e h
    | inr e ↦ rw e (ground (arith, eq_iff i k, eq_iff k i, get-put k i v d), put-Distinct k v d h.1)
  ]

  -- What holds of every pair that `get` finds holds of every entry.
  pub All-of_get {κ} :
      (P : String → V → Type κ) (d : Dict V)
      → Distinct d
      → ((k : String) (v : V) → get k d ≡ some v → P k v)
      → All (λ e. P e.0 e.1) d
  unfolding get
  All-of_get P [] h p = tt
  All-of_get P ((k, v) ∷ d) h p = (
    p k v (rw (eq_refl k)),
    All-of_get P d h.1 (λ j w e. p j w (ground (arith, eq_iff k j, h.0))),
  )

  pub All-values {κ} :
      (P : V → Type κ) (d : Dict V) → All (λ (e : String × V). P e.1) d → All P (values d)
  unfolding values
  All-values P [] h = tt
  All-values P ((k, v) ∷ d) h = (h.0, All-values P d h.1)

  pub get-put_self : (k : String) (v : V) (d : Dict V) → get k (put k v d) ≡ some v
  get-put_self k v d = rw (get-put k k v d, eq_refl k)

  -- What holds of every pair that `get` finds.
  abbrev pub Every {κ} : (String → V → Type κ) → Dict V → Type (ℓ ⊔ κ)
  Every P d = (k : String) (v : V) → get k d ≡ some v → P k v

  pub put-Every {κ} :
      (P : String → V → Type κ) (j : String) (w : V) (d : Dict V)
      → Every P d
      → P j w
      → Every P (put j w d)
  put-Every P j w d h p k v e = elim (Bool-cases (str_eq j k)) [
    | inl m ↦ subst₂ P ((eq_iff j k).0 m) (some_inj (rw (get-put j k w d, m) at e)) p
    | inr m ↦ h k v (rw (get-put j k w d, m) at e)
  ]
