-- ===== src/Plan/Acyclic.antt =====
-- The visits of a whole task graph (core/yield_rca_core/models.py), and the ranks that they leave.
use mathlib.Core.Path.{subst}
use autonomous_qwen_react.Prelude.{
  ℕ, suc, ◌≤◌, ◌<◌, String, Bool, true, false, not, List, [], ◌∷◌, filter, any, all, All, length,
  str_eq, eq_iff, eq_refl, ok, raise, if◌then◌else◌, ◌≡◌, ◌≢◌, refl, sym, ap, inl, inr, arith,
  Bool-cases,
}
use autonomous_qwen_react.Plan.Graph.{
  PlanError, cycle, ids, dependencies, contains, visit, visit_all,
}
use autonomous_qwen_react.Plan.Order.{Closed, TopoSorted, all_mono, each-Visited, visit-Visited}
use autonomous_qwen_react.Plan.Search.{contains-of_all, visit-fuel, visit-ranked, each-raises}
use autonomous_qwen_react.Plan.Ranks.{IsAcyclic, All-dependencies, contains-of_All}

-- The rank of a task in a sorted list: the place from the end.
abbrev pub place : List String → String → ℕ
place [] y = 0
place (x ∷ vs) y = if str_eq y x then suc (length vs) else place vs y

place-le : (vs : List String) (y : String) → place vs y ≤ length vs
place-le [] y = omega arith
place-le (x ∷ vs) y = ground (arith, place-le vs y)

module _ (graph : List (String × List String)) where
  TopoSorted-dependencies :
      (vs : List String) (x : String)
      → TopoSorted graph vs
      → contains vs x ≡ true
      → all (contains vs) (dependencies graph x) ≡ true
  TopoSorted-dependencies [] x t c = cc
  TopoSorted-dependencies (v ∷ vs) x (deps, _, _, t) c =
      all_mono (contains vs) (contains (v ∷ vs)) (dependencies graph x) (λ y h. ground (arith, h))
        (elim (Bool-cases (str_eq x v)) [
          | inl e ↦
              subst (λ y. all (contains vs) (dependencies graph y) ≡ true) (sym ((eq_iff x v).0 e))
                deps
          | inr e ↦ TopoSorted-dependencies vs x t (ground (arith, e, c))
        ])

  apart :
      (vs : List String) (v d : String)
      → contains vs v ≡ false
      → contains vs d ≡ true
      → str_eq d v ≡ false
  apart vs v d n h = elim (Bool-cases (str_eq d v)) [
    | inl e ↦ absurd (ground (arith, ap (contains vs) ((eq_iff d v).0 e), n, h))
    | inr e ↦ e
  ]

  pub place-falls :
      (vs : List String) (x d : String)
      → TopoSorted graph vs
      → contains vs x ≡ true
      → contains (dependencies graph x) d ≡ true
      → place vs d < place vs x
  place-falls [] x d t c m = cc
  place-falls (v ∷ vs) x d (deps, k, fresh, t) c m = elim (Bool-cases (str_eq x v)) [
    | inl e ↦
        let h =
          contains-of_all (contains vs) (dependencies graph v) d deps
            (subst (λ y. contains (dependencies graph y) d ≡ true) ((eq_iff x v).0 e) m) in
        rw (e, apart vs v d fresh h) (omega (arith, place-le vs d))
    | inr e ↦
        let inside : contains vs x ≡ true = ground (arith, e, c) in
        let h =
          contains-of_all (contains vs) (dependencies graph x) d
            (TopoSorted-dependencies vs x t inside) m in
        rw (e, apart vs v d fresh h) (place-falls vs x d t inside m)
  ]

any-not-all : (p : String → Bool) (xs : List String) → any (λ d. not (p d)) xs ≡ not (all p xs)
any-not-all p [] = refl
any-not-all p (x ∷ xs) = ground (arith, any-not-all p xs)

-- The check of the unknown dependencies.
pub known-All :
    (p : String → Bool) (graph : List (String × List String))
    → any (λ e. any (λ d. not (p d)) e.1) graph ≡ false
    → All (λ e. all p e.1 ≡ true) graph
known-All p [] h = tt
known-All p (e ∷ graph) h =
    (ground (arith, any-not-all p e.1, h), known-All p graph (ground (arith, h)))

pub All-known :
    (p : String → Bool) (graph : List (String × List String))
    → All (λ e. all p e.1 ≡ true) graph
    → any (λ e. any (λ d. not (p d)) e.1) graph ≡ false
All-known p [] h = refl
All-known p (e ∷ graph) h = ground (arith, any-not-all p e.1, h.0, All-known p graph h.1)

off-length : (xs : List String) → length (filter (λ i. not (contains [] i)) xs) ≡ length xs
off-length [] = refl
off-length (x ∷ xs) = omega (arith, off-length xs)

ids-length : (graph : List (String × List String)) → length (ids graph) ≡ length graph
ids-length [] = refl
ids-length (e ∷ graph) = omega (arith, ids-length graph)

contains_self : (xs : List String) → all (contains xs) xs ≡ true
contains_self xs = go xs (λ x h. h)
  where
    go :
        (ys : List String)
        → ((x : String) → contains ys x ≡ true → contains xs x ≡ true)
        → all (contains xs) ys ≡ true
    go [] h = refl
    go (y ∷ ys) h = ground (arith, h y, eq_refl y, go ys (λ x c. h x (ground (arith, c))))

module _ (graph : List (String × List String)) where
  -- The visits of the whole graph fail only at a cycle.
  pub visit_all-cycle : Closed graph → {e : PlanError} → visit_all graph ≡ raise e → e ≡ cycle
  unfolding visit_all
  visit_all-cycle c q =
      let (x, vs, k, r) = each-raises (visit graph (suc (length graph)) []) (ids graph) [] q in
      visit-fuel graph c (suc (length graph)) [] x vs k
        (omega (arith, off-length (ids graph), ids-length graph)) r

  pub visit_all-ranked : IsAcyclic graph → Closed graph → visit_all graph ≢ raise cycle
  unfolding visit_all
  visit_all-ranked h c q =
      let (x, vs, k, r) = each-raises (visit graph (suc (length graph)) []) (ids graph) [] q in
      visit-ranked graph h.rank
        (λ x d k m.
          contains-of_All (λ y. h.rank y < h.rank x) (dependencies graph x) d
            (All-dependencies (λ i deps. All (λ y. h.rank y < h.rank i) deps) graph x h.falls k) m)
        c (suc (length graph)) [] x vs k (λ z p. cc) r

  pub visit_all-sorted :
      Closed graph
      → (vs : List String) → visit_all graph ≡ ok vs
      → TopoSorted graph vs × (all (contains vs) (ids graph) ≡ true)
  unfolding visit_all
  visit_all-sorted c vs q =
      let (t, _, a, _) =
        each-Visited graph c [] (visit graph (suc (length graph)) [])
          (visit-Visited graph c (suc (length graph)) []) (ids graph) [] vs
          (contains_self (ids graph)) tt q in
      (t, a)
