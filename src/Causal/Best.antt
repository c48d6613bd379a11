-- ===== src/Causal/Best.antt =====
-- The candidate that Python prefers (core/yield_rca_core/causal_candidate_comparison.py).
use mathlib.Core.Path.{subst}
use autonomous_qwen_react.Prelude.{
  less, ℕ, zero, suc, ◌+◌, String, true, false, ◌||◌, List, [], ◌∷◌, map, Option, none, some, ℤ,
  pos, negsuc, ◌≡◌, ◌≢◌, inl, inr, refl, ap, arith, Bool-cases, some_inj,
}
use autonomous_qwen_react.Causal.Scores.{CausalEvidenceMatrix, matrix_score}
use autonomous_qwen_react.Causal.Comparison.{
  EvidenceGap, maximum, winners, only, preferred, compare_candidate_matrices,
}

-- `xs[i]`, if there is one.
abbrev pub nth : ℕ → List ℤ → Option ℤ
nth i [] = none
nth zero (x ∷ xs) = some x
nth (suc i) (x ∷ xs) = nth i xs

not_less_trans : (a b c : ℤ) → less a b ≡ false → less b c ≡ false → less a c ≡ false
not_less_trans (pos a) (pos b) (pos c) h k = ground (arith, h, k)
not_less_trans (pos a) (pos b) (negsuc c) h k = ground (arith, h, k)
not_less_trans (pos a) (negsuc b) (pos c) h k = ground (arith, h, k)
not_less_trans (pos a) (negsuc b) (negsuc c) h k = ground (arith, h, k)
not_less_trans (negsuc a) (pos b) (pos c) h k = ground (arith, h, k)
not_less_trans (negsuc a) (pos b) (negsuc c) h k = ground (arith, h, k)
not_less_trans (negsuc a) (negsuc b) (pos c) h k = ground (arith, h, k)
not_less_trans (negsuc a) (negsuc b) (negsuc c) h k = ground (arith, h, k)

less_asym : (a b : ℤ) → less a b ≡ true → less b a ≡ false
less_asym (pos a) (pos b) h = ground (arith, h)
less_asym (pos a) (negsuc b) h = ground (arith, h)
less_asym (negsuc a) (pos b) h = ground (arith, h)
less_asym (negsuc a) (negsuc b) h = ground (arith, h)

less_irrefl : (a : ℤ) → less a a ≡ false
less_irrefl a = elim (Bool-cases (less a a)) [ inl e ↦ less_asym a a e | inr e ↦ e ]

same_score : (a b : ℤ) → less a b ≡ false → less b a ≡ false → a ≡ b
same_score (pos a) (pos b) h k = ap pos (ground (arith, h, k))
same_score (pos a) (negsuc b) h k = cc
same_score (negsuc a) (pos b) h k = cc
same_score (negsuc a) (negsuc b) h k = ap negsuc (ground (arith, h, k))

-- The maximum is less than none of the scores.
maximum-upper :
    (x : ℤ) (xs : List ℤ) (j : ℕ) (t : ℤ) → nth j (x ∷ xs) ≡ some t → less (maximum x xs) t ≡ false
maximum-upper x [] zero t e = subst (λ y. less x y ≡ false) (some_inj e) (less_irrefl x)
maximum-upper x [] (suc j) t e = cc
maximum-upper x (y ∷ ys) zero t e =
    subst (λ u. less (maximum x (y ∷ ys)) u ≡ false) (some_inj e)
      (elim (Bool-cases (less x (maximum y ys))) [
        | inl l ↦ rw l (less_asym x (maximum y ys) l)
        | inr l ↦ rw l (less_irrefl x)
      ])
maximum-upper x (y ∷ ys) (suc j) t e = elim (Bool-cases (less x (maximum y ys))) [
  | inl l ↦ rw l (maximum-upper y ys j t e)
  | inr l ↦ rw l (not_less_trans x (maximum y ys) t l (maximum-upper y ys j t e))
]

-- No winner is left: every score is less than the best one, or greater.
no_winner :
    (best : ℤ) (k : ℕ) (xs : List ℤ) (j : ℕ) (t : ℤ)
    → winners best k xs ≡ []
    → nth j xs ≡ some t
    → (less t best || less best t) ≡ true
no_winner best k [] j t w e = cc
no_winner best k (x ∷ xs) zero t w e = elim (Bool-cases (less x best || less best x)) [
  | inl b ↦ subst (λ y. (less y best || less best y) ≡ true) (some_inj e) b
  | inr b ↦ absurd (ground (arith, b, w))
]
no_winner best k (x ∷ xs) (suc j) t w e = elim (Bool-cases (less x best || less best x)) [
  | inl b ↦ no_winner best (suc k) xs j t (rw b at w) e
  | inr b ↦ absurd (ground (arith, b, w))
]

-- The only place of the best score: it is there, and every other score is less.
abbrev pub IsStrictBest : ℤ → ℕ → List ℤ → Type 0
IsStrictBest best n xs =
    (nth n xs ≡ some best) × ((j : ℕ) (t : ℤ) → nth j xs ≡ some t → j ≢ n → less t best ≡ true)

only_winner :
    (best : ℤ) (k : ℕ) (xs : List ℤ) {i : ℕ}
    → ((j : ℕ) (t : ℤ) → nth j xs ≡ some t → less best t ≡ false)
    → winners best k xs ≡ i ∷ []
    → (n : ℕ) × (i ≡ k + n) × IsStrictBest best n xs
only_winner best k [] h w = cc
only_winner best k (x ∷ xs) {i} h w = elim (Bool-cases (less x best || less best x)) [
  | inl b ↦
      let (n, e, (found, others)) =
        only_winner best (suc k) xs (λ j t q. h (suc j) t q) (rw b at w) in
      (
        suc n,
        omega (arith, e),
        (found, λ j t q d. elim_other j t q d (ground (arith, b, h 0 x refl)) others),
      )
  | inr b ↦
      let rest : (i ≡ k) × (winners best (suc k) xs ≡ []) = heads (rw b at w) in
      (
        0,
        omega (arith, rest.0),
        (
          ap some (same_score x best (ground (arith, b)) (ground (arith, b))),
          λ j t q d. after_head j t q d rest.1,
        ),
      )
]
  where
    heads : {ys : List ℕ} → k ∷ ys ≡ i ∷ [] → (i ≡ k) × (ys ≡ [])
    heads q = (ground (arith, q), ground (arith, q))

    elim_other :
        {n : ℕ} (j : ℕ) (t : ℤ)
        → nth j (x ∷ xs) ≡ some t
        → j ≢ suc n
        → less x best ≡ true
        → ((j : ℕ) (t : ℤ) → nth j xs ≡ some t → j ≢ n → less t best ≡ true)
        → less t best ≡ true
    elim_other zero t q d l others = subst (λ y. less y best ≡ true) (some_inj q) l
    elim_other (suc j) t q d l others = others j t q (λ e. d (ap suc e))

    after_head :
        (j : ℕ) (t : ℤ)
        → nth j (x ∷ xs) ≡ some t
        → j ≢ 0
        → winners best (suc k) xs ≡ []
        → less t best ≡ true
    after_head zero t q d w' = absurd (d refl)
    after_head (suc j) t q d w' = ground (arith, no_winner best (suc k) xs j t w' q, h (suc j) t q)

preferred-IsStrictBest :
    (xs : List ℤ) (i : ℕ) → preferred xs ≡ some i → (best : ℤ) × IsStrictBest best i xs
preferred-IsStrictBest [] i e = cc
preferred-IsStrictBest (x ∷ xs) i e = go (winners (maximum x xs) 0 (x ∷ xs)) refl e
  where
    go :
        (ws : List ℕ)
        → winners (maximum x xs) 0 (x ∷ xs) ≡ ws
        → only ws ≡ some i
        → (best : ℤ) × IsStrictBest best i (x ∷ xs)
    go [] w q = cc
    go (a ∷ b ∷ ws) w q = cc
    go (a ∷ []) w q =
        let (n, k, best) = only_winner (maximum x xs) 0 (x ∷ xs) (maximum-upper x xs) w in
        (
          maximum x xs,
          subst (λ y. IsStrictBest (maximum x xs) y (x ∷ xs)) (omega (arith, k, some_inj q)) best,
        )

-- Python prefers a candidate only if its matrix scores strictly more than each of the others; the scores
-- are those of the matrices.
pub compare_candidate_matrices-IsStrictBest :
    (ms : List CausalEvidenceMatrix) (gaps : List EvidenceGap) (status : Option String) (i : ℕ)
    → (compare_candidate_matrices ms gaps status).preferred_candidate_index ≡ some i
    → (best : ℤ) × IsStrictBest best i (map matrix_score ms)
unfolding compare_candidate_matrices
compare_candidate_matrices-IsStrictBest [] gaps status i e = cc
compare_candidate_matrices-IsStrictBest (m ∷ ms) gaps status i e =
    preferred-IsStrictBest (map matrix_score (m ∷ ms)) i e
