-- ===== src/Plan/Validation.antt =====
-- Which task graphs `_validate_task_graph` of core/yield_rca_core/models.py accepts.
use autonomous_qwen_react.Prelude.{
  ◌<◌, String, Bool, true, false, not, List, any, all, All, All-map, has_duplicates, Result, ok,
  raise, >>=-eq-ok, ◌≡◌, ◌≢◌, ◌↔◌, refl, ap, ◌∙◌, arith, Bool-cases, inl, inr, >>=-eq-raise,
}
use autonomous_qwen_react.Plan.Graph.{
  PlanError, out_of_fuel, ids, contains, visit_all, validate_task_graph,
}
use autonomous_qwen_react.Plan.Order.{Closed}
use autonomous_qwen_react.Plan.Search.{contains-of_all}
use autonomous_qwen_react.Plan.Ranks.{
  IsAcyclic, All-dependencies, All-of_contains, edge-dependencies,
}
use autonomous_qwen_react.Plan.Acyclic.{
  place, place-falls, known-All, All-known, visit_all-cycle, visit_all-ranked, visit_all-sorted,
}

module _ (graph : List (String × List String)) where
  abbrev is_unknown : Bool
  is_unknown = any (λ e. any (λ d. not (contains (ids graph) d)) e.1) graph

  All-Closed : All (λ e. all (contains (ids graph)) e.1 ≡ true) graph → Closed graph
  All-Closed h x = All-dependencies (λ i deps. all (contains (ids graph)) deps ≡ true) graph x h

  -- What a graph that was accepted went through.
  pub accepted :
      validate_task_graph graph ≡ ok tt
      → (has_duplicates (ids graph) ≡ false)
        × (is_unknown ≡ false)
        × (vs : List String) × (visit_all graph ≡ ok vs)
  unfolding validate_task_graph
  accepted e = elim (Bool-cases (has_duplicates (ids graph))) [
    | inl d ↦ absurd (ground (arith, d, e))
    | inr d ↦ elim (Bool-cases is_unknown) [
      | inl u ↦ absurd (ground (arith, d, u, e))
      | inr u ↦
          let (vs, q, _) = >>=-eq-ok (visit_all graph) _ (rw (d, u, validate_task_graph) at e) in
          (d, u, vs, q)
    ]
  ]

  accepted-IsAcyclic : validate_task_graph graph ≡ ok tt → IsAcyclic graph
  accepted-IsAcyclic e =
      let (d, u, vs, q) = accepted e in
      let known = known-All (contains (ids graph)) graph u in
      let (t, a) = visit_all-sorted graph (All-Closed known) vs q in
      record {
        distinct = d;
        closed = known;
        rank = place vs;
        falls =
            All-map graph
              (λ e (k, same).
                All-of_contains (λ y. place vs y < place vs e.0) e.1
                  (λ y m.
                    place-falls graph vs e.0 y t (contains-of_all (contains vs) (ids graph) e.0 a k)
                      (ap (λ deps. contains deps y) same ∙ m)))
              (edge-dependencies graph d);
      }

  visited : IsAcyclic graph → (vs : List String) × (visit_all graph ≡ ok vs)
  visited h = go (visit_all graph) refl
    where
      go :
          (m : Result PlanError (List String))
          → visit_all graph ≡ m
          → (vs : List String) × (visit_all graph ≡ ok vs)
      go (ok vs) q = (vs, q)
      go (Result.raise e) q =
          let c = visit_all-cycle graph (All-Closed h.closed) q in
          absurd (visit_all-ranked graph h (All-Closed h.closed) (q ∙ ap Result.raise c))

  IsAcyclic-accepted : IsAcyclic graph → validate_task_graph graph ≡ ok tt
  unfolding validate_task_graph
  IsAcyclic-accepted h =
      rw (h.distinct, All-known (contains (ids graph)) graph h.closed, (visited h).1) refl

  not_out_of_fuel : validate_task_graph graph ≢ raise out_of_fuel
  unfolding validate_task_graph
  not_out_of_fuel e = elim (Bool-cases (has_duplicates (ids graph))) [
    | inl d ↦ ground (arith, d, e)
    | inr d ↦ elim (Bool-cases is_unknown) [
      | inl u ↦ ground (arith, d, u, e)
      | inr u ↦ elim (>>=-eq-raise (visit_all graph) _ (rw (d, u, validate_task_graph) at e)) [
        | inl q ↦
            let c =
              visit_all-cycle graph (All-Closed (known-All (contains (ids graph)) graph u)) q in
            ground (arith, c)
        | inr (vs, _, q) ↦ ground (arith, q)
      ]
    ]
  ]

  -- A task graph is accepted exactly when no identifier occurs twice, every dependency is a task, and
  -- there are ranks that fall from each task to its dependencies; and the search ends: the fuel
  -- of one more than the number of tasks is never used up.
  pub validate_task_graph_iff :
      ((validate_task_graph graph ≡ ok tt) ↔ IsAcyclic graph)
      × (validate_task_graph graph ≢ raise out_of_fuel)
  validate_task_graph_iff = ((accepted-IsAcyclic, IsAcyclic-accepted), not_out_of_fuel)
