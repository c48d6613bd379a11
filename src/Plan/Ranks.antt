-- ===== src/Plan/Ranks.antt =====
-- Task graphs with ranks (core/yield_rca_core/models.py), and the dependencies of their edges.
use mathlib.Core.Path.{subst}
use autonomous_qwen_react.Prelude.{
  ℕ, ◌<◌, String, true, false, List, [], ◌∷◌, all, All, str_eq, eq_iff, eq_refl, has_duplicates,
  ◌≡◌, refl, sym, inl, inr, arith, Bool-cases,
}
use autonomous_qwen_react.Plan.Graph.{ids, dependencies, contains}

-- A task graph: no identifier twice, every dependency is a task, and ranks fall from each task to
-- its dependencies.
pub record IsAcyclic (graph : List (String × List String)) : Type 0 where
  pub distinct : has_duplicates (ids graph) ≡ false
  pub closed : All (λ e. all (contains (ids graph)) e.1 ≡ true) graph
  pub rank : String → ℕ
  pub falls : All (λ e. All (λ d. rank d < rank e.0) e.1) graph

-- What holds of every edge holds of the dependencies of a task that is there.
pub All-dependencies :
    (P : String → List String → Type 0) (graph : List (String × List String)) (x : String)
    → All (λ e. P e.0 e.1) graph
    → contains (ids graph) x ≡ true
    → P x (dependencies graph x)
All-dependencies P [] x h c = cc
All-dependencies P ((i, deps) ∷ graph) x h c = elim (Bool-cases (str_eq i x)) [
  | inl e ↦ rw e (subst (λ j. P j deps) ((eq_iff i x).0 e) h.0)
  | inr e ↦ rw e (All-dependencies P graph x h.1 (ground (arith, eq_iff i x, eq_iff x i, e, c)))
]

pub All-of_contains :
    (P : String → Type 0) (xs : List String)
    → ((x : String) → contains xs x ≡ true → P x)
    → All P xs
All-of_contains P [] h = tt
All-of_contains P (x ∷ xs) h =
    (h x (ground (arith, eq_refl x)), All-of_contains P xs (λ y c. h y (ground (arith, c))))

pub contains-of_All :
    (P : String → Type 0) (xs : List String) (x : String) → All P xs → contains xs x ≡ true → P x
contains-of_All P [] x h c = cc
contains-of_All P (y ∷ xs) x h c = elim (Bool-cases (str_eq x y)) [
  | inl e ↦ subst P (sym ((eq_iff x y).0 e)) h.0
  | inr e ↦ contains-of_All P xs x h.1 (ground (arith, e, c))
]

-- Without duplicates, the dependencies of a task are those of its edge.
pub edge-dependencies :
    (graph : List (String × List String))
    → has_duplicates (ids graph) ≡ false
    → All (λ e. (contains (ids graph) e.0 ≡ true) × (dependencies graph e.0 ≡ e.1)) graph
edge-dependencies [] h = tt
edge-dependencies ((i, deps) ∷ graph) h = (
  (ground (arith, eq_refl i), rw (eq_refl i) refl),
  lift graph (edge-dependencies graph (ground (arith, h))) (ground (arith, h)),
)
  where
    lift :
        (rest : List (String × List String))
        → All (λ e. (contains (ids graph) e.0 ≡ true) × (dependencies graph e.0 ≡ e.1)) rest
        → contains (ids graph) i ≡ false
        → All
            (λ e.
              (contains (ids ((i, deps) ∷ graph)) e.0 ≡ true)
              × (dependencies ((i, deps) ∷ graph) e.0 ≡ e.1))
            rest
    lift [] a n = tt
    lift (e ∷ rest) a n = ((ground (arith, a), ground (arith, a, n, eq_iff i e.0)), lift rest a.1 n)
