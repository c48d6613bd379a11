-- ===== src/Plan/Rounds.antt =====
-- The rounds of `Supervisor.execute` (core/yield_rca_core/supervisor.py): lists of task identifiers.
use autonomous_qwen_react.Prelude.{
  ◌≤◌, ◌<◌, String, Bool, true, false, not, ◌&&◌, ◌||◌, List, [], ◌∷◌, ◌++◌, map, filter, all, All,
  length, str_eq, eq_iff, eq_refl, has_duplicates, ◌≡◌, refl, inl, inr, ◌⊎◌, arith, Bool-cases,
}
use autonomous_qwen_react.Plan.Graph.{contains}

-- `reversed(xs)`
abbrev pub reversed {ℓ} : {A : Type ℓ} → List A → List A
reversed [] = []
reversed (x ∷ xs) = reversed xs ++ x ∷ []

pub reversed-append {ℓ} :
    {A : Type ℓ} (xs : List A) (x : A) → reversed (xs ++ x ∷ []) ≡ x ∷ reversed xs
reversed-append [] x = refl
reversed-append (y ∷ xs) x = rw (reversed-append xs x) refl

pub contains-append :
    (xs ys : List String) (z : String) → contains (xs ++ ys) z ≡ (contains xs z || contains ys z)
contains-append [] ys z = refl
contains-append (x ∷ xs) ys z = ground (arith, contains-append xs ys z)

pub contains-reversed : (xs : List String) (z : String) → contains (reversed xs) z ≡ contains xs z
contains-reversed [] z = refl
contains-reversed (x ∷ xs) z =
    ground (arith, contains-append (reversed xs) (x ∷ []) z, contains-reversed xs z)

-- `remaining` without a task.
abbrev pub without : String → List String → List String
without x xs = filter (λ y. not (str_eq x y)) xs

pub contains-without :
    (x : String) (xs : List String) (z : String)
    → contains (without x xs) z ≡ (contains xs z && not (str_eq x z))
contains-without x [] z = refl
contains-without x (y ∷ xs) z =
    ground (arith, eq_iff x y, eq_iff x z, eq_iff z y, contains-without x xs z)

without-le : (x : String) (xs : List String) → length (without x xs) ≤ length xs
without-le x [] = omega arith
without-le x (y ∷ xs) = ground (arith, without-le x xs)

pub without-lt :
    (x : String) (xs : List String) → contains xs x ≡ true → length (without x xs) < length xs
without-lt x [] c = cc
without-lt x (y ∷ xs) c = ground (arith, eq_iff x y, without-le x xs, without-lt x xs, c)

-- A test that fails for all fails for one.
pub not-all :
    (p : String → Bool) (xs : List String)
    → all p xs ≡ false
    → (x : String) × (contains xs x ≡ true) × (p x ≡ false)
not-all p [] h = cc
not-all p (x ∷ xs) h = elim (Bool-cases (p x)) [
  | inl e ↦ let (y, c, n) = not-all p xs (ground (arith, e, h)) in (y, ground (arith, c), n)
  | inr e ↦ (x, ground (arith, eq_refl x), e)
]

module _ {ℓ} {A : Type ℓ} where
  pub filter-none : (p : A → Bool) (xs : List A) → filter p xs ≡ [] → All (λ x. p x ≡ false) xs
  filter-none p [] e = tt
  filter-none p (x ∷ xs) e = elim (Bool-cases (p x)) [
    | inl h ↦ absurd (ground (arith, h, e))
    | inr h ↦ (h, filter-none p xs (rw h at e))
  ]

  pub filter-All {κ} :
      (P : A → Type κ) (p : A → Bool) (xs : List A)
      → All P xs
      → All (λ x. P x × (p x ≡ true)) (filter p xs)
  filter-All P p [] h = tt
  filter-All P p (x ∷ xs) (h, hs) = elim (Bool-cases (p x)) [
    | inl e ↦ rw e ((h, e), filter-All P p xs hs)
    | inr e ↦ rw e (filter-All P p xs hs)
  ]

  contains-filter :
      (name : A → String) (p : A → Bool) (xs : List A) (z : String)
      → contains (map name xs) z ≡ false
      → contains (map name (filter p xs)) z ≡ false
  contains-filter name p [] z h = refl
  contains-filter name p (x ∷ xs) z h = ground (arith, contains-filter name p xs z, h)

  pub filter-distinct :
      (name : A → String) (p : A → Bool) (xs : List A)
      → has_duplicates (map name xs) ≡ false
      → has_duplicates (map name (filter p xs)) ≡ false
  filter-distinct name p [] h = refl
  filter-distinct name p (x ∷ xs) h =
      ground (arith, contains-filter name p xs (name x), filter-distinct name p xs, h)

  pub List-cases : (xs : List A) → (xs ≡ []) ⊎ ((x : A) × (ys : List A) × (xs ≡ x ∷ ys))
  List-cases [] = inl refl
  List-cases (x ∷ xs) = inr (x, xs, refl)

module _ {ℓ m} {A : Type ℓ} {B : Type m} where
  pub map-All {κ} :
      (P : B → Type κ) (f : A → B) (xs : List A) → All (λ x. P (f x)) xs → All P (map f xs)
  map-All P f [] h = tt
  map-All P f (x ∷ xs) (p, h) = (p, map-All P f xs h)

  pub All-of_map {κ} :
      (P : B → Type κ) (f : A → B) (xs : List A) → All P (map f xs) → All (λ x. P (f x)) xs
  All-of_map P f [] h = tt
  All-of_map P f (x ∷ xs) (p, h) = (p, All-of_map P f xs h)
