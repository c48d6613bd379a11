-- ===== src/Plan/Order.antt =====
-- The task graph of a plan (core/yield_rca_core/models.py): what the depth-first search of
-- `_validate_task_graph` leaves, and the fuel that it needs.
use mathlib.Core.Path.{subst}
use autonomous_qwen_react.Prelude.{
  ℕ, zero, suc, String, Bool, true, false, List, [], ◌∷◌, all, eq_iff, eq_refl, Result, ok,
  >>=-eq-ok, ok-injective, ◌≡◌, refl, ◌∙◌, inl, inr, arith, Bool-cases,
}
use autonomous_qwen_react.Plan.Graph.{PlanError, ids, dependencies, contains, each, visit}

-- Every task stands behind (to the left of) its dependencies, once, and is one of the graph.
abbrev pub TopoSorted : List (String × List String) → List String → Type 0
TopoSorted graph [] = Unit
TopoSorted graph (x ∷ vs) =
    (all (contains vs) (dependencies graph x) ≡ true)
    × (contains (ids graph) x ≡ true)
    × (contains vs x ≡ false)
    × TopoSorted graph vs

-- All dependencies are tasks of the graph.
abbrev pub Closed : List (String × List String) → Type 0
Closed graph =
    (x : String)
    → contains (ids graph) x ≡ true
    → all (contains (ids graph)) (dependencies graph x) ≡ true

-- After visits of `xs` from `path`: sorted, nothing lost, all of `xs` visited, and nothing of `path`
-- visited anew.
abbrev pub Visited :
    List (String × List String) → List String → List String → List String → List String → Type 0
Visited graph path xs vs vs' =
    TopoSorted graph vs'
    × ((y : String) → contains vs y ≡ true → contains vs' y ≡ true)
    × (all (contains vs') xs ≡ true)
    × ((z : String) → contains path z ≡ true → contains vs' z ≡ contains vs z)

pub all_mono :
    (p q : String → Bool) (xs : List String)
    → ((x : String) → p x ≡ true → q x ≡ true)
    → all p xs ≡ true
    → all q xs ≡ true
all_mono p q [] h e = refl
all_mono p q (x ∷ xs) h e = ground (arith, h x, all_mono p q xs h, e)

module _ (graph : List (String × List String)) (closed : Closed graph) where
  -- One step of the search, as `each` uses it.
  abbrev Step : List String → (String → List String → Result PlanError (List String)) → Type 0
  Step path step =
      (x : String) (vs vs' : List String)
      → contains (ids graph) x ≡ true
      → TopoSorted graph vs
      → step x vs ≡ ok vs'
      → Visited graph path (x ∷ []) vs vs'

  pub each-Visited :
      (path : List String) (step : String → List String → Result PlanError (List String))
      → Step path step
      → (xs vs vs' : List String) → all (contains (ids graph)) xs ≡ true
      → TopoSorted graph vs
      → each step xs vs ≡ ok vs'
      → Visited graph path xs vs vs'
  each-Visited path step s [] vs vs' k t e =
      subst (Visited graph path [] vs) (ok-injective e) (t, λ y h. h, refl, λ z h. refl)
  each-Visited path step s (x ∷ xs) vs vs' k t e =
      let (v1, e1, e2) = >>=-eq-ok (step x vs) (each step xs) e in
      let (t1, m1, c1, n1) = s x vs v1 (ground (arith, k)) t e1 in
      let (t2, m2, c2, n2) = each-Visited path step s xs v1 vs' (ground (arith, k)) t1 e2 in
      (t2, λ y h. m2 y (m1 y h), ground (arith, m2 x, c1, c2), λ z h. n2 z h ∙ n1 z h)

  Visited-anew :
      (path vs v1 : List String) (x : String)
      → contains (ids graph) x ≡ true
      → contains path x ≡ false
      → contains vs x ≡ false
      → Visited graph (x ∷ path) (dependencies graph x) vs v1
      → Visited graph path (x ∷ []) vs (x ∷ v1)
  Visited-anew path vs v1 x k b c (t, m, d, n) = (
    (d, k, n x (ground (arith, eq_refl x)) ∙ c, t),
    λ y h. ground (arith, m y h),
    ground (arith, eq_refl x),
    λ z h. ground (arith, eq_iff z x, n z, b, h),
  )

  pub visit-Visited : (fuel : ℕ) (path : List String) → Step path (visit graph fuel path)
  unfolding visit
  visit-Visited zero path x vs vs' k t e = cc
  visit-Visited (suc fuel) path x vs vs' k t e = elim (Bool-cases (contains path x)) [
    | inl b ↦ absurd (ground (arith, b, e))
    | inr b ↦ elim (Bool-cases (contains vs x)) [
      | inl c ↦
          subst (Visited graph path (x ∷ []) vs) (ok-injective (rw (b, c, visit) at e))
            (t, λ y h. h, ground (arith, c), λ z h. refl)
      | inr c ↦
          let (v1, e1, e2) =
            >>=-eq-ok (each (visit graph fuel (x ∷ path)) (dependencies graph x) vs) _
              (rw (b, c, visit) at e) in
          subst (Visited graph path (x ∷ []) vs) (ok-injective e2) (
            Visited-anew path vs v1 x k b c (
              each-Visited (x ∷ path) (visit graph fuel (x ∷ path)) (visit-Visited fuel (x ∷ path))
                (dependencies graph x) vs v1 (closed x k) t e1))
    ]
  ]
