-- ===== src/Plan/Progress.antt =====
-- The whole of `Supervisor.execute` (core/yield_rca_core/supervisor.py) on a plan that was built.
use mathlib.Core.Path.{subst}
use autonomous_qwen_react.Prelude.{
  ℕ, zero, suc, ◌≤◌, ◌<◌, ◌+◌, String, Bool, true, false, not, ◌&&◌, List, [], ◌∷◌, ◌++◌, map,
  filter, all, All, All-map, length, eq_iff, eq_refl, has_duplicates, Result, ok, raise,
  raise_if-eq-ok, ◌≡◌, refl, sym, ap, ◌∙◌, inl, inr, ◌⊎◌, none, arith,
}
use autonomous_qwen_react.Json.{Fields}
use autonomous_qwen_react.Queue.Status.{TaskStatus}
use autonomous_qwen_react.Policy.Models.{is_filled}
use autonomous_qwen_react.Plan.Graph.{
  AgentTask, TaskPlan, PlanError, edges, ids, dependencies, contains, is_empty, check_plan,
  validate_task_graph,
}
use autonomous_qwen_react.Plan.Order.{TopoSorted, all_mono}
use autonomous_qwen_react.Plan.Search.{contains-of_all}
use autonomous_qwen_react.Plan.Ranks.{
  IsAcyclic, All-dependencies, contains-of_All, edge-dependencies,
}
use autonomous_qwen_react.Plan.Execute.{
  PlanFinding, RunState, TaskError, task_failed, is_ready, execute_ready, execute_rounds,
  WorkflowEvent, agent_started, agent_completed,
}
use autonomous_qwen_react.Plan.Steps.{Done, Failed, execute_task-cases}
use autonomous_qwen_react.Plan.Rounds.{
  reversed, reversed-append, contains-append, contains-reversed, without, contains-without,
  without-lt, not-all, filter-none, filter-All, filter-distinct, List-cases, map-All, All-of_map,
}

-- The checks of a plan end with those of its graph.
pub check_plan-graph :
    (p : TaskPlan) → check_plan p ≡ ok tt → validate_task_graph (edges p.tasks) ≡ ok tt
unfolding check_plan
check_plan-graph p h =
    let (_, h1) = raise_if-eq-ok (not (is_filled p.plan_id)) PlanError.empty_field _ h in
    let (_, h2) = raise_if-eq-ok (not (is_filled p.objective)) PlanError.empty_field _ h1 in
    let (_, h3) = raise_if-eq-ok (is_empty p.tasks) PlanError.empty_field _ h2 in h3

module _ (graph : List (String × List String)) where
  -- What a task must be to run: one that remains, whose dependencies are done.
  abbrev pub Runnable : List String → List String → AgentTask → Type 0
  Runnable completed remaining t =
      (contains remaining t.task_id ≡ true)
      × (all (contains completed) (dependencies graph t.task_id) ≡ true)

module _ (graph : List (String × List String)) {P : Type 0} where
  -- The tasks that are done are sorted, the first one first, and the others remain.
  pub record Inv (s : RunState P) (remaining : List String) : Type 0 where
    pub valid : check_plan s.task_plan ≡ ok tt
    pub sorted : TopoSorted graph (reversed s.completed_task_ids)
    pub split :
        (y : String)
        → contains remaining y ≡ (contains (ids graph) y && not (contains s.completed_task_ids y))

  -- What a failure leaves: the tasks that are done are sorted, and the job failed.
  abbrev pub Stopped : RunState P → Type 0
  Stopped s =
      (check_plan s.task_plan ≡ ok tt)
      × TopoSorted graph (reversed s.completed_task_ids)
      × (s.job_status ≡ TaskStatus.failed)
      × (s.current_task_id ≡ none)

  Failed-Stopped :
      (s s' : RunState P) (remaining : List String) → Inv s remaining → Failed s s' → Stopped s'
  Failed-Stopped s s' remaining i (v, e, st, c) =
      (v, subst (λ xs. TopoSorted graph (reversed xs)) (sym e) i.sorted, st, c)

  Done-Inv :
      (s s' : RunState P) (t : AgentTask) (remaining : List String)
      → Inv s remaining
      → Runnable graph s.completed_task_ids remaining t
      → Done s t s'
      → Inv s' (without t.task_id remaining)
  Done-Inv s s' t remaining i (c, deps) (v, e) = record {
    valid = v;
    sorted =
        subst (λ xs. TopoSorted graph (reversed xs)) (sym e)
          (subst (TopoSorted graph) (sym (reversed-append s.completed_task_ids t.task_id)) (
            all_mono (contains s.completed_task_ids) (contains (reversed s.completed_task_ids))
                (dependencies graph t.task_id) (λ y h. contains-reversed s.completed_task_ids y ∙ h)
                deps,
            ground (arith, i.split t.task_id, c),
            contains-reversed s.completed_task_ids t.task_id ∙ ground (arith, i.split t.task_id, c),
            i.sorted,
          ));
    split = λ y.
        rw
          (
            e,
            contains-without t.task_id remaining y,
            i.split y,
            contains-append s.completed_task_ids (t.task_id ∷ []) y,
          )
          (ground (arith, eq_iff t.task_id y, eq_iff y t.task_id));
  }

  Runnable-later :
      (s s' : RunState P) (t : AgentTask) (remaining : List String) (ts : List AgentTask)
      → s'.completed_task_ids ≡ s.completed_task_ids ++ t.task_id ∷ []
      → contains (map (λ u. u.task_id) ts) t.task_id ≡ false
      → All (Runnable graph s.completed_task_ids remaining) ts
      → All (Runnable graph s'.completed_task_ids (without t.task_id remaining)) ts
  Runnable-later s s' t remaining [] e n h = tt
  Runnable-later s s' t remaining (u ∷ ts) e n ((c, deps), h) = (
    (
      contains-without t.task_id remaining u.task_id ∙ ground (arith, c, n),
      all_mono (contains s.completed_task_ids) (contains s'.completed_task_ids)
          (dependencies graph u.task_id)
          (λ y k. rw e (ground (arith, contains-append s.completed_task_ids (t.task_id ∷ []) y, k)))
          deps,
    ),
    Runnable-later s s' t remaining ts e (ground (arith, n)) h,
  )

module _ (graph : List (String × List String)) {P : Type 0} (same : P → P → Bool)
    (hypothesis_of : Fields → Result TaskError String)
    (dispatch : AgentTask → RunState P → Result TaskError (PlanFinding P))
    (announce : WorkflowEvent P → Result TaskError (Unit {0}))
    (takes : (e : WorkflowEvent P) → announce e ≡ ok tt) where
  -- A round of tasks that may run: they are done, or one fails with its state.
  pub execute_ready-cases :
      (ts : List AgentTask) (s : RunState P) (remaining : List String)
      → Inv graph s remaining
      → All (Runnable graph s.completed_task_ids remaining) ts
      → has_duplicates (map (λ u. u.task_id) ts) ≡ false
      → ((s' : RunState P) × (rest : List String) × (execute_ready same hypothesis_of dispatch
              announce ts s remaining
            ≡ ok (s', rest))
          × Inv graph s' rest
          × (length rest + length ts ≤ length remaining))
        ⊎ ((s' : RunState P) × (execute_ready same hypothesis_of dispatch announce ts s remaining
              ≡ raise (task_failed s'))
            × Stopped graph s')
  unfolding execute_ready
  execute_ready-cases [] s remaining i h d = inl (s, remaining, refl, i, omega arith)
  execute_ready-cases (t ∷ ts) s remaining i (r, h) d =
      elim (execute_task-cases same hypothesis_of dispatch s t i.valid) [
        | inl (s1, e1, done) ↦
            elim (execute_ready-cases ts s1 (without t.task_id remaining)
              (Done-Inv graph s s1 t remaining i r done)
              (Runnable-later graph s s1 t remaining ts done.1 (ground (arith, d)) h)
              (ground (arith, d))) [
                | inl (s', rest, e, i', le) ↦ inl (
                  s',
                  rest,
                  rw (takes (agent_started t), e1, takes (agent_completed t s1), e) refl,
                  i',
                  omega (arith, le, without-lt t.task_id remaining r.0),
                )
                | inr (s', e, f) ↦
                    inr (
                      s',
                      rw (takes (agent_started t), e1, takes (agent_completed t s1), e) refl,
                      f,
                    )
              ]
        | inr (s', e, f) ↦
            inr (s', rw (takes (agent_started t), e) refl, Failed-Stopped graph s s' remaining i f)
      ]

pub ids-edges : (tasks : List AgentTask) → ids (edges tasks) ≡ map (λ t. t.task_id) tasks
ids-edges [] = refl
ids-edges (t ∷ tasks) = ap (λ xs. t.task_id ∷ xs) (ids-edges tasks)

module _ (tasks : List AgentTask) (acyclic : IsAcyclic (edges tasks)) {P : Type 0} where
  abbrev ready : RunState P → List String → List AgentTask
  ready s remaining = filter (is_ready s.completed_task_ids remaining) tasks

  -- Of the tasks that remain, one of the least rank is ready.
  ready-nonempty :
      (s : RunState P) (remaining : List String)
      → Inv (edges tasks) s remaining
      → ready s remaining ≡ []
      → (n : ℕ) (y : String) → contains remaining y ≡ true
      → acyclic.rank y < n
      → ⊥
  ready-nonempty s remaining i e zero y c l = omega (arith, l)
  ready-nonempty s remaining i e (suc n) y c l =
      let known : contains (ids (edges tasks)) y ≡ true = ground (arith, i.split y, c) in
      let blocked =
        All-dependencies
          (λ x deps. (contains remaining x && all (contains s.completed_task_ids) deps) ≡ false)
          (edges tasks) y
          (map-All _ (λ t. (t.task_id, t.depends_on)) tasks
            (filter-none (is_ready s.completed_task_ids remaining) tasks e))
          known in
      let (d, m, waits) =
        not-all (contains s.completed_task_ids) (dependencies (edges tasks) y)
          (ground (arith, blocked, c)) in
      let task =
        contains-of_all (contains (ids (edges tasks))) (dependencies (edges tasks) y) d
          (All-dependencies (λ x deps. all (contains (ids (edges tasks))) deps ≡ true) (edges tasks)
            y acyclic.closed known)
          m in
      let less =
        contains-of_All (λ z. acyclic.rank z < acyclic.rank y) (dependencies (edges tasks) y) d
          (All-dependencies (λ x deps. All (λ z. acyclic.rank z < acyclic.rank x) deps)
            (edges tasks) y acyclic.falls known)
          m in
      ready-nonempty s remaining i e n d (ground (arith, i.split d, task, waits))
        (omega (arith, l, less))

  ready-Runnable :
      (s : RunState P) (remaining : List String)
      → All (Runnable (edges tasks) s.completed_task_ids remaining) (ready s remaining)
  ready-Runnable s remaining =
      All-map (ready s remaining)
        (λ t ((k, same), r).
          (ground (arith, r), ap (all (contains s.completed_task_ids)) same ∙ ground (arith, r)))
        (filter-All
          (λ t.
            (contains (ids (edges tasks)) t.task_id ≡ true)
            × (dependencies (edges tasks) t.task_id ≡ t.depends_on))
          (is_ready s.completed_task_ids remaining) tasks
          (All-of_map
            (λ e.
              (contains (ids (edges tasks)) e.0 ≡ true) × (dependencies (edges tasks) e.0 ≡ e.1))
            (λ t. (t.task_id, t.depends_on)) tasks
            (edge-dependencies (edges tasks) acyclic.distinct)))

  ready-distinct :
      (s : RunState P) (remaining : List String)
      → has_duplicates (map (λ t. t.task_id) (ready s remaining)) ≡ false
  ready-distinct s remaining =
      filter-distinct (λ t. t.task_id) (is_ready s.completed_task_ids remaining) tasks
        (subst (λ xs. has_duplicates xs ≡ false) (ids-edges tasks) acyclic.distinct)

  module _ (same : P → P → Bool) (hypothesis_of : Fields → Result TaskError String)
      (dispatch : AgentTask → RunState P → Result TaskError (PlanFinding P))
      (announce : WorkflowEvent P → Result TaskError (Unit {0}))
      (takes : (e : WorkflowEvent P) → announce e ≡ ok tt) where
    -- With a round for every task that remains, the rounds end: all tasks are done, or one failed.
    pub execute_rounds-cases :
        (fuel : ℕ) (s : RunState P) (remaining : List String)
        → Inv (edges tasks) s remaining
        → length remaining ≤ fuel
        → ((s' : RunState P) × (execute_rounds same hypothesis_of dispatch announce tasks fuel s
                remaining
              ≡ ok s')
            × Inv (edges tasks) s' [])
          ⊎ ((s' : RunState P) × (execute_rounds same hypothesis_of dispatch announce tasks fuel s
                  remaining
                ≡ raise (task_failed s'))
              × Stopped (edges tasks) s')
    unfolding execute_rounds
    execute_rounds-cases zero s [] i l = inl (s, refl, i)
    execute_rounds-cases (suc fuel) s [] i l = inl (s, refl, i)
    execute_rounds-cases zero s (x ∷ xs) i l = absurd (omega (arith, l))
    execute_rounds-cases (suc fuel) s (x ∷ xs) i l = elim (List-cases (ready s (x ∷ xs))) [
      | inl e ↦ absurd (
          ready-nonempty s (x ∷ xs) i e (suc (acyclic.rank x)) x (ground (arith, eq_refl x))
            (omega arith))
      | inr (t, ts, e) ↦
          elim (execute_ready-cases (edges tasks) same hypothesis_of dispatch announce takes
            (t ∷ ts) s (x ∷ xs) i
            (subst (All (Runnable (edges tasks) s.completed_task_ids (x ∷ xs))) e
              (ready-Runnable s (x ∷ xs)))
            (subst (λ us. has_duplicates (map (λ u. u.task_id) us) ≡ false) e
              (ready-distinct s (x ∷ xs)))) [
                | inl (s1, rest, e1, i1, le) ↦
                    elim (execute_rounds-cases fuel s1 rest i1 (omega (arith, l, le))) [
                      | inl (s', e2, i') ↦ inl (s', rw (e, e1, e2, execute_rounds) refl, i')
                      | inr (s', e2, f) ↦ inr (s', rw (e, e1, e2, execute_rounds) refl, f)
                    ]
                | inr (s', e1, f) ↦ inr (s', rw (e, e1, execute_rounds) refl, f)
              ]
    ]
