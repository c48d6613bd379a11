-- ===== src/Plan/Search.antt =====
-- The depth-first search of `_validate_task_graph` (core/yield_rca_core/models.py): the fuel that it
-- needs, and when it meets a cycle.
use autonomous_qwen_react.Prelude.{
  ℕ, zero, suc, ◌≤◌, ◌<◌, String, Bool, true, false, not, List, [], ◌∷◌, filter, all, length,
  eq_iff, eq_refl, Result, raise, >>=-eq-raise, ◌≡◌, ◌≢◌, inl, inr, ◌⊎◌, arith, Bool-cases,
}
use autonomous_qwen_react.Plan.Graph.{PlanError, cycle, ids, dependencies, contains, each, visit}
use autonomous_qwen_react.Plan.Order.{Closed}

pub contains-of_all :
    (p : String → Bool) (xs : List String) (x : String)
    → all p xs ≡ true
    → contains xs x ≡ true
    → p x ≡ true
contains-of_all p [] x h c = cc
contains-of_all p (y ∷ xs) x h c = ground (arith, eq_iff x y, contains-of_all p xs x, h, c)

-- A step that raises, of the steps of `each`.
pub each-raises :
    {S : Type 0} (step : String → S → Result PlanError S) (xs : List String) (s : S) {e : PlanError}
    → each step xs s ≡ raise e
    → (x : String) × (s' : S) × (contains xs x ≡ true) × (step x s' ≡ raise e)
each-raises step [] s q = cc
each-raises step (x ∷ xs) s q = elim (>>=-eq-raise (step x s) (each step xs) q) [
  | inl h ↦ (x, s, ground (arith, eq_refl x), h)
  | inr (s1, _, h) ↦ let (y, s', c, r) = each-raises step xs s1 h in (y, s', ground (arith, c), r)
]

-- The tasks that are not on the path.
abbrev off : List String → List String → List String
off path xs = filter (λ i. not (contains path i)) xs

off-le : (x : String) (path xs : List String) → length (off (x ∷ path) xs) ≤ length (off path xs)
off-le x path [] = omega arith
off-le x path (y ∷ xs) = ground (arith, off-le x path xs)

off-lt :
    (x : String) (path xs : List String)
    → contains xs x ≡ true
    → contains path x ≡ false
    → length (off (x ∷ path) xs) < length (off path xs)
off-lt x path [] c n = cc
off-lt x path (y ∷ xs) c n =
    ground (arith, eq_iff x y, eq_refl x, off-le x path xs, off-lt x path xs, c, n)

module _ (graph : List (String × List String)) where
  out_of_fuel≢cycle :
      (path : List String) (x : String) (vs : List String)
      → visit graph zero path x vs ≢ raise cycle
  unfolding visit
  out_of_fuel≢cycle path x vs q = ground (arith, q)

  visit-inner :
      (fuel : ℕ) (path : List String) (x : String) (vs : List String) {e : PlanError}
      → visit graph (suc fuel) path x vs ≡ raise e
      → ((contains path x ≡ true) × (e ≡ cycle))
        ⊎ ((contains path x ≡ false)
            × (d : String) × (vs' : List String) × (contains (dependencies graph x) d ≡ true)
            × (visit graph fuel (x ∷ path) d vs' ≡ raise e))
  unfolding visit
  visit-inner fuel path x vs q = elim (Bool-cases (contains path x)) [
    | inl b ↦ inl (b, ground (arith, b, q))
    | inr b ↦ elim (Bool-cases (contains vs x)) [
      | inl c ↦ absurd (ground (arith, b, c, q))
      | inr c ↦
          elim (>>=-eq-raise (each (visit graph fuel (x ∷ path)) (dependencies graph x) vs) _
            (rw (b, c, visit) at q)) [
              | inl r ↦
                  let (d, vs', m, h) =
                    each-raises (visit graph fuel (x ∷ path)) (dependencies graph x) vs r in
                  inr (b, d, vs', m, h)
              | inr (v1, _, h) ↦ absurd (ground (arith, h))
            ]
    ]
  ]

  -- With more fuel than tasks off the path, a visit that raises met a cycle.
  pub visit-fuel :
      Closed graph
      → (fuel : ℕ) (path : List String) (x : String) (vs : List String) {e : PlanError}
      → contains (ids graph) x ≡ true
      → length (off path (ids graph)) < fuel
      → visit graph fuel path x vs ≡ raise e
      → e ≡ cycle
  visit-fuel c zero path x vs k h q = absurd (omega (arith, h))
  visit-fuel c (suc fuel) path x vs k h q = elim (visit-inner fuel path x vs q) [
    | inl (_, e) ↦ e
    | inr (n, d, vs', m, r) ↦
        visit-fuel c fuel (x ∷ path) d vs' (contains-of_all _ _ d (c x k) m)
          (omega (arith, h, off-lt x path (ids graph) k n)) r
  ]

  -- Along ranks that fall from a task to its dependencies, no visit meets a cycle.
  pub visit-ranked :
      (rank : String → ℕ)
      → ((x d : String)
          → contains (ids graph) x ≡ true
          → contains (dependencies graph x) d ≡ true
          → rank d < rank x)
      → Closed graph
      → (fuel : ℕ) (path : List String) (x : String) (vs : List String)
      → contains (ids graph) x ≡ true
      → ((z : String) → contains path z ≡ true → rank x < rank z)
      → visit graph fuel path x vs ≢ raise cycle
  visit-ranked rank f c zero path x vs k p q = out_of_fuel≢cycle path x vs q
  visit-ranked rank f c (suc fuel) path x vs k p q = elim (visit-inner fuel path x vs q) [
    | inl (m, _) ↦ absurd (omega (arith, p x m))
    | inr (n, d, vs', m, r) ↦
        visit-ranked rank f c fuel (x ∷ path) d vs' (contains-of_all _ _ d (c x k) m)
          (λ z i. ground (arith, eq_iff z x, f x d k m, p z, i)) r
  ]
