-- ===== src/Plan/Completion.antt =====
-- `Supervisor.execute` (core/yield_rca_core/supervisor.py), from a plan to its end.
use autonomous_qwen_react.Prelude.{String, Bool, true, List, all, Result, ok, raise, ◌≡◌, ◌⊎◌, none}
use autonomous_qwen_react.Json.{Fields}
use autonomous_qwen_react.Queue.Status.{TaskStatus}
use autonomous_qwen_react.Plan.Graph.{AgentTask, TaskPlan, edges, ids, contains, check_plan}
use autonomous_qwen_react.Plan.Order.{TopoSorted}
use autonomous_qwen_react.Plan.Execute.{
  PlanFinding, RunState, TaskError, task_failed, report_failed, WorkflowEvent, execute,
}
use autonomous_qwen_react.Plan.Rounds.{reversed}
use autonomous_qwen_react.Plan.Progress.{Stopped}

-- Every task is done, once, after all of its dependencies.
abbrev pub AllDone : {P : Type 0} → List (String × List String) → RunState P → Type 0
AllDone graph s =
    (check_plan s.task_plan ≡ ok tt)
    × TopoSorted graph (reversed s.completed_task_ids)
    × (all (contains s.completed_task_ids) (ids graph) ≡ true)
    × (s.current_task_id ≡ none)

module _ {P R : Type 0} (same : P → P → Bool) (hypothesis_of : Fields → Result TaskError String)
    (dispatch : AgentTask → RunState P → Result TaskError (PlanFinding P))
    (announce : WorkflowEvent P → Result TaskError (Unit {0}))
    (generate : RunState P → Result TaskError R) where
  -- The run ends with every task done, exactly once and after all of its dependencies, and the report is made of the
  -- state then: with it the job is completed, or its error is raised.
  abbrev pub Finished : TaskPlan → Type 0
  Finished p =
      (s : RunState P) × AllDone (edges p.tasks) s
      × (((report : R) × (generate s ≡ ok report)
            × (execute same hypothesis_of dispatch announce generate p
                ≡ ok (record s { job_status = TaskStatus.completed }, report)))
          ⊎ ((e : TaskError) × (generate s ≡ raise e)
              × (execute same hypothesis_of dispatch announce generate p ≡ raise report_failed)))

  -- The run ends with a task that failed; the error carries a failed job, whose done tasks are in such an order too.
  abbrev pub Failed : TaskPlan → Type 0
  Failed p =
      (s : RunState P) × (execute same hypothesis_of dispatch announce generate p
        ≡ raise (task_failed s))
      × Stopped (edges p.tasks) s
