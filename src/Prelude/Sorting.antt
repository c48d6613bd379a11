-- ===== src/Prelude/Sorting.antt =====
-- `sorted(items, key=...)`: a stable sort, over the strict order of the keys.
use mathlib.Core.Bool.{Bool, true, false}
use mathlib.Core.Path.{◌≡◌, refl, sym, subst}
use mathlib.Core.Logic.{◌⊎◌, ◌≢◌, inl, inr}
use mathlib.Core.List.{List, [], ◌∷◌}
use native.Mathlib.Omega.{arith}
use autonomous_qwen_react.Prelude.Tests.{if◌then◌else◌, Bool-cases}
use autonomous_qwen_react.Prelude.Lists.{All, any}

module _ {ℓ} {A : Type ℓ} (before : A → A → Bool) where
  -- `x` goes in front of the first element that is not before it.
  unfoldable pub insert : A → List A → List A
  insert x [] = x ∷ []
  insert x (y ∷ ys) = let rest = insert x ys in if before y x then y ∷ rest else x ∷ y ∷ ys

  unfoldable pub sorted : List A → List A
  unfolding insert
  sorted [] = []
  sorted (x ∷ xs) = insert x (sorted xs)

  insert-All {κ} : (P : A → Type κ) (x : A) (ys : List A) → P x → All P ys → All P (insert x ys)
  unfolding insert
  insert-All P x [] px h = (px, tt)
  insert-All P x (y ∷ ys) px h = elim (Bool-cases (before y x)) [
    | inl e ↦ rw e (h.0, insert-All P x ys px h.1)
    | inr e ↦ rw e (px, h)
  ]

  -- What holds of every item holds of every sorted item.
  pub sorted-All {κ} : (P : A → Type κ) (xs : List A) → All P xs → All P (sorted xs)
  unfolding sorted
  sorted-All P [] h = h
  sorted-All P (x ∷ xs) h = insert-All P x (sorted xs) h.0 (sorted-All P xs h.1)

  insert-nonempty : (x : A) (zs : List A) → insert x zs ≢ []
  unfolding insert
  insert-nonempty x [] e = cc
  insert-nonempty x (z ∷ zs) e = ground arith

  pub sorted-eq-nil : (xs : List A) → sorted xs ≡ [] → xs ≡ []
  unfolding sorted
  sorted-eq-nil [] e = refl
  sorted-eq-nil (x ∷ xs) e = absurd (insert-nonempty x (sorted xs) e)

  -- The head after an insertion: the item, or the old head if that is before the item.
  abbrev HeadOf : A → List A → A → Type ℓ
  HeadOf x [] y = y ≡ x
  HeadOf x (h ∷ t) y = ((before h x ≡ true) × (y ≡ h)) ⊎ ((before h x ≡ false) × (y ≡ x))

  insert-head : (x : A) (zs : List A) {y : A} {ys : List A} → insert x zs ≡ y ∷ ys → HeadOf x zs y
  unfolding insert
  insert-head x [] e = cc
  insert-head x (h ∷ t) e = ground arith

  abbrev pub Least : A → List A → Type 0
  Least y xs = All (λ z. before z y ≡ false) xs

  -- No item is before one that stands before it in the list.
  abbrev pub Ordered : List A → Type 0
  Ordered [] = Unit
  Ordered (x ∷ xs) = Least x xs × Ordered xs

  -- Nothing is before the first of the sorted items, if the order is asymmetric and what is not
  -- before is transitive.
  module _ (asym : (a b : A) → before a b ≡ true → before b a ≡ false)
      (trans : (a b c : A) → before a b ≡ false → before b c ≡ false → before a c ≡ false) where
    Least-trans : (x y : A) (xs : List A) → before y x ≡ false → Least y xs → Least x xs
    Least-trans x y [] e h = tt
    Least-trans x y (z ∷ zs) e h = (trans z y x h.0 e, Least-trans x y zs e h.1)

    irrefl : (a : A) → before a a ≡ false
    irrefl a = elim (Bool-cases (before a a)) [ inl e ↦ asym a a e | inr e ↦ e ]

    pub sorted-Least : (xs : List A) {y : A} {ys : List A} → sorted xs ≡ y ∷ ys → Least y xs
    unfolding sorted
    sorted-Least [] e = tt
    sorted-Least (x ∷ xs) {y} e =
        go (λ z zs n. sorted-Least xs n) (sorted xs) refl (insert-head x (sorted xs) e)
      where
        go :
            ((z : A) (zs : List A) → sorted xs ≡ z ∷ zs → Least z xs)
            → (zs : List A) → sorted xs ≡ zs
            → HeadOf x zs y
            → Least y (x ∷ xs)
        go rest [] n h =
            subst (λ w. Least w (x ∷ xs)) (sym h)
              (irrefl x, subst (Least x) (sym (sorted-eq-nil xs n)) tt)
        go rest (z ∷ zs) n (inl (b, h)) =
            subst (λ w. Least w (x ∷ xs)) (sym h) (asym z x b, rest z zs n)
        go rest (z ∷ zs) n (inr (b, h)) =
            subst (λ w. Least w (x ∷ xs)) (sym h) (irrefl x, Least-trans x z xs b (rest z zs n))

    insert-Ordered : (x : A) (ys : List A) → Ordered ys → Ordered (insert x ys)
    unfolding insert
    insert-Ordered x [] h = (tt, tt)
    insert-Ordered x (y ∷ ys) h = elim (Bool-cases (before y x)) [
      | inl e ↦
          rw e (insert-All (λ z. before z y ≡ false) x ys (asym y x e) h.0, insert-Ordered x ys h.1)
      | inr e ↦ rw e ((e, Least-trans x y ys e h.0), h)
    ]

    pub sorted-Ordered : (xs : List A) → Ordered (sorted xs)
    unfolding sorted
    sorted-Ordered [] = tt
    sorted-Ordered (x ∷ xs) = insert-Ordered x (sorted xs) (sorted-Ordered xs)

  pub insert-any :
      (test : A → Bool) (x : A) (ys : List A) → any test (insert x ys) ≡ any test (x ∷ ys)
  unfolding insert
  insert-any test x [] = refl
  insert-any test x (y ∷ ys) = ground (arith, insert-any test x ys)

  -- Some sorted item passes a test if and only if some item does.
  pub sorted-any : (test : A → Bool) (xs : List A) → any test (sorted xs) ≡ any test xs
  unfolding sorted
  sorted-any test [] = refl
  sorted-any test (x ∷ xs) = ground (arith, insert-any test x (sorted xs), sorted-any test xs)
