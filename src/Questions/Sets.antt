-- ===== src/Questions/Sets.antt =====
-- Sorted sets of texts, as core/yield_rca_core/next_action_planner.py makes them.
use mathlib.Core.Path.{subst}
use autonomous_qwen_react.Prelude.{
  String, Bool, true, false, not, List, [], ◌∷◌, any, all, joined, str_eq, eq_iff, eq_refl,
  has_duplicates, ◌≡◌, refl, ◌∙◌, arith, inl, inr, Bool-cases,
}
use autonomous_qwen_react.Prelude.Sorting.{sorted, insert, insert-any, sorted-any}
use autonomous_qwen_react.Policy.Models.{is_filled}
use autonomous_qwen_react.Questions.Kinds.{occurs, is_subset, is_some_item, without}
use autonomous_qwen_react.Questions.Terminal.{unique_texts, earlier_text, sorted_set}

found-any :
    (test : String → Bool) (x : String) (xs : List String)
    → occurs x xs ≡ true
    → test x ≡ true
    → any test xs ≡ true
found-any test x [] h k = cc
found-any test x (y ∷ ys) h k = elim (Bool-cases (str_eq x y)) [
  | inl e ↦ rw (subst (λ z. test z ≡ true) ((eq_iff x y).0 e) k) refl
  | inr e ↦ ground (arith, found-any test x ys (ground (arith, e, h)) k)
]

unique_texts-any :
    (test : String → Bool) (xs : List String) → any test (unique_texts xs) ≡ any test xs
unfolding unique_texts
unique_texts-any test [] = refl
unique_texts-any test (x ∷ xs) = elim (Bool-cases (occurs x xs)) [
  | inl e ↦ rw e (ground (arith, unique_texts-any test xs, found-any test x xs e))
  | inr e ↦ rw e (ground (arith, unique_texts-any test xs))
]

unique_texts-distinct : (xs : List String) → has_duplicates (unique_texts xs) ≡ false
unfolding unique_texts
unique_texts-distinct [] = refl
unique_texts-distinct (x ∷ xs) = elim (Bool-cases (occurs x xs)) [
  | inl e ↦ rw e (unique_texts-distinct xs)
  | inr e ↦ rw e (ground (arith, e, unique_texts-any (str_eq x) xs, unique_texts-distinct xs))
]

insert-has_duplicates :
    (x : String) (ys : List String)
    → has_duplicates (insert earlier_text x ys) ≡ has_duplicates (x ∷ ys)
unfolding insert
insert-has_duplicates x [] = refl
insert-has_duplicates x (y ∷ ys) = ground (
  arith,
  insert-any earlier_text (str_eq y) x ys,
  insert-has_duplicates x ys,
  eq_iff x y,
  eq_iff y x,
)

sorted-has_duplicates :
    (xs : List String) → has_duplicates (sorted earlier_text xs) ≡ has_duplicates xs
unfolding sorted
sorted-has_duplicates [] = refl
sorted-has_duplicates (x ∷ xs) = ground (
  arith,
  insert-has_duplicates x (sorted earlier_text xs),
  sorted-any earlier_text (str_eq x) xs,
  sorted-has_duplicates xs,
)

-- A sorted set has the items of the list, each of them once.
pub sorted_set-any :
    (test : String → Bool) (xs : List String) → any test (sorted_set xs) ≡ any test xs
unfolding sorted_set
sorted_set-any test xs = sorted-any earlier_text test (unique_texts xs) ∙ unique_texts-any test xs

pub sorted_set-distinct : (xs : List String) → has_duplicates (sorted_set xs) ≡ false
unfolding sorted_set
sorted_set-distinct xs = sorted-has_duplicates (unique_texts xs) ∙ unique_texts-distinct xs

-- What no item of a list fails, every item passes.
all-of_any :
    (test : String → Bool) (xs : List String)
    → any (λ x. not (test x)) xs ≡ false
    → all test xs ≡ true
all-of_any test [] h = refl
all-of_any test (x ∷ xs) h = ground (arith, h, all-of_any test xs)

any-of_all :
    (test : String → Bool) (xs : List String)
    → all test xs ≡ true
    → any (λ x. not (test x)) xs ≡ false
any-of_all test [] h = refl
any-of_all test (x ∷ xs) h = ground (arith, h, any-of_all test xs)

pub sorted_set-all :
    (test : String → Bool) (xs : List String) → all test xs ≡ true → all test (sorted_set xs) ≡ true
sorted_set-all test xs h =
    all-of_any test (sorted_set xs) (sorted_set-any (λ x. not (test x)) xs ∙ any-of_all test xs h)

pub sorted_set-nonempty :
    (x : String) (xs : List String) → is_some_item (sorted_set (x ∷ xs)) ≡ true
sorted_set-nonempty x xs = go (sorted_set (x ∷ xs)) (sorted_set-any (λ y. true) (x ∷ xs))
  where
    go : (ys : List String) → any (λ y. true) ys ≡ true → is_some_item ys ≡ true
    go [] h = cc
    go (y ∷ ys) h = refl

-- A text that begins with one that is not blank is not blank.
pub is_filled-joined_left : (s u : String) → is_filled s ≡ true → is_filled (joined s u) ≡ true
is_filled-joined_left String.[] u h = cc
is_filled-joined_left (String.◌∷◌ c s) u h = ground (arith, h, is_filled-joined_left s u)

pub without-none :
    (xs ys : List String) → is_subset xs ys ≡ true → is_some_item (without xs ys) ≡ false
without-none [] ys h = refl
without-none (x ∷ xs) ys h = elim (Bool-cases (occurs x ys)) [
  | inl e ↦ rw e (without-none xs ys (ground (arith, e, h)))
  | inr e ↦ absurd (ground (arith, e, h))
]

-- Every item of a list occurs in it.
pub subset_self : (xs : List String) → is_subset xs xs ≡ true
subset_self xs = go xs (λ x h. h)
  where
    go :
        (ys : List String)
        → ((x : String) → occurs x ys ≡ true → occurs x xs ≡ true)
        → is_subset ys xs ≡ true
    go [] f = refl
    go (y ∷ ys) f = rw (f y (rw (eq_refl y) refl)) (go ys (λ x h. f x (ground (arith, h))))

pub subset-sorted_set : (xs : List String) → is_subset xs (sorted_set xs) ≡ true
subset-sorted_set xs = go xs (subset_self xs)
  where
    go : (ys : List String) → is_subset ys xs ≡ true → is_subset ys (sorted_set xs) ≡ true
    go [] h = refl
    go (y ∷ ys) h = ground (arith, h, sorted_set-any (str_eq y) xs, go ys)
