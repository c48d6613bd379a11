-- ===== src/Plan/Steps.antt =====
-- One task of `Supervisor.execute` (core/yield_rca_core/supervisor.py).
use mathlib.Core.Path.{subst}
use autonomous_qwen_react.Prelude.{
  String, Bool, List, [], ◌∷◌, ◌++◌, str_eq, none, Result, ok, raise, ◌>>=◌, >>=-eq-ok,
  ok-injective, ◌≡◌, refl, sym, ap, ◌∙◌, inl, inr, ◌⊎◌, Bool-cases,
}
use autonomous_qwen_react.Json.{Fields}
use autonomous_qwen_react.Queue.Status.{TaskStatus}
use autonomous_qwen_react.Plan.Graph.{AgentTask, TaskPlan, edges, is_empty, check_plan}
use autonomous_qwen_react.Plan.Execute.{
  PlanFinding, RunState, TaskError, task_failed, with_status, replace_task_status, in_task,
  accept_finding, recorded_state, record_finding, failed_state, started, settle_task, execute_task,
}

edges-with_status :
    (x : String) (s : TaskStatus) (ts : List AgentTask) → edges (with_status x s ts) ≡ edges ts
edges-with_status x s [] = refl
edges-with_status x s (t ∷ ts) = elim (Bool-cases (str_eq t.task_id x)) [
  | inl e ↦ rw e (ap (λ es. (t.task_id, t.depends_on) ∷ es) (edges-with_status x s ts))
  | inr e ↦ rw e (ap (λ es. (t.task_id, t.depends_on) ∷ es) (edges-with_status x s ts))
]

is_empty-with_status :
    (x : String) (s : TaskStatus) (ts : List AgentTask)
    → is_empty (with_status x s ts) ≡ is_empty ts
is_empty-with_status x s [] = refl
is_empty-with_status x s (t ∷ ts) = refl

-- A status is no matter for the checks of a plan.
check_plan-with_status :
    (p : TaskPlan) (x : String) (s : TaskStatus)
    → check_plan (record p { tasks = with_status x s p.tasks }) ≡ check_plan p
unfolding check_plan
check_plan-with_status p x s =
    rw (is_empty-with_status x s p.tasks, edges-with_status x s p.tasks) refl

replace_task_status-ok :
    (p : TaskPlan) (x : String) (s : TaskStatus)
    → check_plan p ≡ ok tt
    → replace_task_status p x s ≡ ok (record p { tasks = with_status x s p.tasks })
unfolding replace_task_status
replace_task_status-ok p x s h = rw (check_plan-with_status p x s, h) refl

replace_task_status-eq-ok :
    (p : TaskPlan) (x : String) (s : TaskStatus) {p' : TaskPlan}
    → check_plan p ≡ ok tt
    → replace_task_status p x s ≡ ok p'
    → check_plan p' ≡ ok tt
replace_task_status-eq-ok p x s h e =
    subst (λ q. check_plan q ≡ ok tt) (ok-injective (sym (replace_task_status-ok p x s h) ∙ e))
      (check_plan-with_status p x s ∙ h)

in_task-eq-ok {ℓ} : {E : Type 0} {A : Type ℓ} (r : Result E A) {a : A} → in_task r ≡ ok a → r ≡ ok a
in_task-eq-ok (ok x) e = ap ok (ok-injective e)
in_task-eq-ok (Result.raise x) e = cc

-- What a task leaves when it is done: a valid plan, and its identifier at the end.
abbrev pub Done : {P : Type 0} → RunState P → AgentTask → RunState P → Type 0
Done s t s' =
    (check_plan s'.task_plan ≡ ok tt)
    × (s'.completed_task_ids ≡ s.completed_task_ids ++ t.task_id ∷ [])

-- What a task leaves when it fails: a valid plan, the tasks that were done, a failed job.
abbrev pub Failed : {P : Type 0} → RunState P → RunState P → Type 0
Failed s s' =
    (check_plan s'.task_plan ≡ ok tt)
    × (s'.completed_task_ids ≡ s.completed_task_ids)
    × (s'.job_status ≡ TaskStatus.failed)
    × (s'.current_task_id ≡ none)

module _ {P : Type 0} (same : P → P → Bool) (hypothesis_of : Fields → Result TaskError String) where
  record_finding-Done :
      (s : RunState P) (t : AgentTask) (f : PlanFinding P) (s' : RunState P)
      → check_plan s.task_plan ≡ ok tt
      → record_finding same hypothesis_of s t f ≡ ok s'
      → Done s t s'
  unfolding record_finding
  record_finding-Done s t f s' h e =
      let (evidence, _, e1) = >>=-eq-ok (accept_finding same hypothesis_of s t f) _ e in
      let (p', r, e2) =
        >>=-eq-ok (in_task (replace_task_status s.task_plan t.task_id TaskStatus.completed)) _ e1 in
      let valid =
        replace_task_status-eq-ok s.task_plan t.task_id TaskStatus.completed h
          (in_task-eq-ok _ r) in
      subst (Done s t) {x = recorded_state s t f evidence p'} (ok-injective e2) (valid, refl)

module _ {P : Type 0} (same : P → P → Bool) (hypothesis_of : Fields → Result TaskError String)
    (dispatch : AgentTask → RunState P → Result TaskError (PlanFinding P)) where
  -- A task of a valid plan is done, or fails with the state of the failure.
  pub execute_task-cases :
      (s : RunState P) (t : AgentTask)
      → check_plan s.task_plan ≡ ok tt
      → ((s' : RunState P) × (execute_task same hypothesis_of dispatch s t ≡ ok s') × Done s t s')
        ⊎ ((s' : RunState P) × (execute_task same hypothesis_of dispatch s t
              ≡ raise (task_failed s'))
            × Failed s s')
  unfolding execute_task settle_task
  execute_task-cases s t h =
      settled (dispatch t running >>= record_finding same hypothesis_of running t) refl
    where
      running_plan : TaskPlan
      running_plan = record s.task_plan {
        tasks = with_status t.task_id TaskStatus.running s.task_plan.tasks;
      }

      valid : check_plan running_plan ≡ ok tt
      valid = check_plan-with_status s.task_plan t.task_id TaskStatus.running ∙ h

      running : RunState P
      running = started s t running_plan

      settles :
          execute_task same hypothesis_of dispatch s t
          ≡ settle_task running t
              (dispatch t running >>= record_finding same hypothesis_of running t)
      settles = rw (replace_task_status-ok s.task_plan t.task_id TaskStatus.running h) refl

      settled :
          (m : Result TaskError (RunState P))
          → (dispatch t running >>= record_finding same hypothesis_of running t) ≡ m
          → ((s' : RunState P) × (execute_task same hypothesis_of dispatch s t ≡ ok s')
              × Done s t s')
            ⊎ ((s' : RunState P) × (execute_task same hypothesis_of dispatch s t
                  ≡ raise (task_failed s'))
                × Failed s s')
      settled (ok s') q =
          let (f, _, r) =
            >>=-eq-ok (dispatch t running) (record_finding same hypothesis_of running t) q in
          inl (
            s',
            settles ∙ ap (settle_task running t) q,
            record_finding-Done same hypothesis_of running t f s' valid r,
          )
      settled (Result.raise e) q = inr (
        failed_state running failed_plan,
        settles ∙ ap (settle_task running t) q ∙ fails,
        (check_plan-with_status running_plan t.task_id TaskStatus.failed ∙ valid, refl, refl, refl),
      )
        where
          failed_plan : TaskPlan
          failed_plan = record running_plan {
            tasks = with_status t.task_id TaskStatus.failed running_plan.tasks;
          }

          fails :
              settle_task running t (raise e)
              ≡ raise (task_failed (failed_state running failed_plan))
          fails = rw (replace_task_status-ok running_plan t.task_id TaskStatus.failed valid) refl
