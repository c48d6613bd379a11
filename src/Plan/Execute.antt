-- ===== src/Plan/Execute.antt =====
-- `Supervisor.execute` of core/yield_rca_core/supervisor.py: the tasks of a plan in the order of
-- their dependencies. `dispatch` stands for `_dispatch`, the call of a specialist. Of the state, the
-- fields that `execute`, `_execute_task` and `_record_finding` read or write apart from the lots,
-- wafers and warnings that a finding carries, and the checks of `RCAState` on them; `P` is what is only compared of evidence, and `hypothesis_of` stands
-- for `Hypothesis.from_dict`, of which the identifier is kept. `generate` stands for `report_generator.generate`. `announce` stands
-- for `emit_workflow_event`, which calls the sink of the context.
use autonomous_qwen_react.Prelude.{
  ℕ, zero, suc, String, Bool, true, false, not, ◌&&◌, List, [], ◌∷◌, ◌++◌, map, filter, any, all,
  length, str_eq, Dict, get, values, Option, none, some, Result, ok, raise, ◌>>=◌, ◌>>◌, raise_if,
  if◌then◌else◌,
}
use autonomous_qwen_react.Json.{Json, Fields}
use autonomous_qwen_react.Queue.Status.{TaskStatus}
use autonomous_qwen_react.Policy.Kinds.{AgentKind, same_agent}
use autonomous_qwen_react.Evidence.Collection.{Evidence, add_all, merge}
use autonomous_qwen_react.Plan.Graph.{
  AgentTask, TaskPlan, FindingKind, PlanError, contains, check_plan,
}

pub record PlanFinding (P : Type 0) : Type 0 where
  pub finding_id : String
  pub agent : AgentKind
  pub task_id : Option String
  pub finding_kind : FindingKind
  pub evidence_ids : List String
  pub evidence : List (Evidence P)
  pub details : Dict Json

pub record RunState (P : Type 0) : Type 0 where
  pub job_status : TaskStatus
  pub task_plan : TaskPlan
  pub current_task_id : Option String
  pub completed_task_ids : List String
  pub findings : List (PlanFinding P)
  pub evidence : List (Evidence P)
  pub authoritative_rca_finding_id : Option String
  pub authoritative_hypothesis_id : Option String

-- What ends `execute`: `SupervisorExecutionError` for agents that are not registered, for want of an
-- executable task, and for a task that failed, with the state that it carries; a
-- `ModelValidationError` of a plan; what the generator of the report or the sink of the
-- events raises; and a loop that does not end.
pub data ExecuteError (P : Type 0) : Type 0 where
  unsupported_agents no_executable_task loops report_failed sink_failed : ExecuteError P
  task_failed : RunState P → ExecuteError P
  plan_error : PlanError → ExecuteError P

-- The events; their payloads are made of the task, and of the finding for it in the state.
pub data WorkflowEvent (P : Type 0) : Type 0 where
  agent_started : AgentTask → WorkflowEvent P
  agent_completed : AgentTask → RunState P → WorkflowEvent P
  investigation_stopped : RunState P → WorkflowEvent P

-- An exception inside a task.
pub data TaskError : Type 0 where
  task_error : TaskError

-- `SUPERVISOR_EXECUTABLE_AGENTS`
abbrev pub is_executable : AgentKind → Bool
is_executable AgentKind.mes = true
is_executable AgentKind.fdc = true
is_executable AgentKind.defect_wat = true
is_executable AgentKind.knowledge = true
is_executable AgentKind.rca_reasoning = true
is_executable AgentKind.improvement = true
is_executable _ = false

-- The tasks of `_replace_task_status`.
abbrev pub with_status : String → TaskStatus → List AgentTask → List AgentTask
with_status x s [] = []
with_status x s (t ∷ ts) =
    let rest = with_status x s ts in
    (if str_eq t.task_id x then (record t { status = s }) else t) ∷ rest

-- `_replace_task_status`; a task that was built passes its own checks again.
unfoldable pub replace_task_status : TaskPlan → String → TaskStatus → Result PlanError TaskPlan
replace_task_status p x s = do
  check_plan (record p { tasks = with_status x s p.tasks })
  ok (record p { tasks = with_status x s p.tasks })

-- Whether a finding is for another task.
abbrev is_foreign : String → Option String → Bool
is_foreign x none = false
is_foreign x (some y) = not (str_eq y x)

abbrev pub in_task {ℓ} : {E : Type 0} {A : Type ℓ} → Result E A → Result TaskError A
in_task (ok a) = ok a
in_task (Result.raise e) = raise task_error

module _ {P : Type 0} where
  abbrev names_task : String → PlanFinding P → Bool
  names_task x f = elim f.task_id [ none ↦ false | some y ↦ str_eq y x ]

  abbrev pub of_plan {ℓ} : {A : Type ℓ} → Result PlanError A → Result (ExecuteError P) A
  of_plan (ok a) = ok a
  of_plan (Result.raise e) = raise (plan_error e)

  -- The state after a finding.
  abbrev pub recorded_state :
      RunState P
      → AgentTask
      → PlanFinding P
      → List (Evidence P) × Option String
      → TaskPlan
      → RunState P
  recorded_state s t f (evidence, hypothesis) p = record s {
    task_plan = p;
    current_task_id = none;
    completed_task_ids = s.completed_task_ids ++ t.task_id ∷ [];
    findings =
        s.findings ++ (record f { task_id = some t.task_id; finding_kind = t.finding_kind }) ∷ [];
    evidence = evidence;
    authoritative_rca_finding_id = elim hypothesis [
      | none ↦ s.authoritative_rca_finding_id
      | some i ↦ some f.finding_id
    ];
    authoritative_hypothesis_id = elim hypothesis [
      | none ↦ s.authoritative_hypothesis_id
      | some i ↦ some i
    ];
  }

module _ {P : Type 0} (same : P → P → Bool) (hypothesis_of : Fields → Result TaskError String) where
  -- The hypothesis that the finding of a reasoning agent must carry.
  unfoldable pub authority : PlanFinding P → Result TaskError (Option String)
  authority f =
      if same_agent f.agent AgentKind.rca_reasoning
      then elim (get "hypothesis" f.details) [
        | some (Json.object d) ↦ hypothesis_of d >>= λ i. ok (some i)
        | _ ↦ raise task_error
      ]
      else ok none

  -- The checks of `_record_finding`, the merged evidence, and the hypothesis of the finding.
  unfoldable pub accept_finding :
      RunState P → AgentTask → PlanFinding P → Result TaskError (List (Evidence P) × Option String)
  accept_finding s t f = do
    raise_if (not (same_agent f.agent t.agent)) task_error
    raise_if (is_foreign t.task_id f.task_id) task_error
    raise_if (any (names_task t.task_id) s.findings) task_error
    staged ← in_task (add_all same [] s.evidence)
    index ← in_task (merge same staged f.evidence)
    raise_if (any (λ i. not (contains (map (λ e. e.evidence_id) (values index)) i)) f.evidence_ids)
        task_error
    hypothesis ← authority f
    ok (values index, hypothesis)

  -- `_record_finding`
  unfoldable pub record_finding :
      RunState P → AgentTask → PlanFinding P → Result TaskError (RunState P)
  record_finding s t f = do
    accepted ← accept_finding s t f
    completed_plan ← in_task (replace_task_status s.task_plan t.task_id TaskStatus.completed)
    ok (recorded_state s t f accepted completed_plan)

module _ {P : Type 0} where
  -- The state with which a failed task ends.
  abbrev pub failed_state : RunState P → TaskPlan → RunState P
  failed_state s p = record s {
    job_status = TaskStatus.failed;
    task_plan = p;
    current_task_id = none;
  }

  -- `_execute_task` on a task that was started, by what became of it.
  unfoldable pub settle_task :
      RunState P → AgentTask → Result TaskError (RunState P) → Result (ExecuteError P) (RunState P)
  settle_task running t (ok s') = ok s'
  settle_task running t (Result.raise e) = do
    failed_plan ← of_plan (replace_task_status running.task_plan t.task_id TaskStatus.failed)
    raise (task_failed (failed_state running failed_plan))

  abbrev pub started : RunState P → AgentTask → TaskPlan → RunState P
  started s t p = record s { task_plan = p; current_task_id = some t.task_id }

module _ {P : Type 0} where
  -- The state that `execute` begins with.
  abbrev pub first_state : TaskPlan → RunState P
  first_state p = record {
    job_status = TaskStatus.running;
    task_plan = p;
    current_task_id = none;
    completed_task_ids = [];
    findings = [];
    evidence = [];
    authoritative_rca_finding_id = none;
    authoritative_hypothesis_id = none;
  }

  -- The state of which the report is made.
  abbrev pub resting_state : RunState P → RunState P
  resting_state s = record s { current_task_id = none }

  -- The state that `execute` returns, apart from its report.
  abbrev pub completed_state : RunState P → RunState P
  completed_state s = record s { job_status = TaskStatus.completed; current_task_id = none }

  abbrev pub of_sink : Result TaskError (Unit {0}) → Result (ExecuteError P) (Unit {0})
  of_sink (ok u) = ok u
  of_sink (Result.raise e) = raise sink_failed

  abbrev pub of_report {ℓ} : {A : Type ℓ} → Result TaskError A → Result (ExecuteError P) A
  of_report (ok a) = ok a
  of_report (Result.raise e) = raise report_failed

-- The condition of `ready`.
abbrev pub is_ready : List String → List String → AgentTask → Bool
is_ready completed remaining t =
    contains remaining t.task_id && all (contains completed) t.depends_on

module _ {P : Type 0} (same : P → P → Bool) (hypothesis_of : Fields → Result TaskError String)
    (dispatch : AgentTask → RunState P → Result TaskError (PlanFinding P)) where
  -- `_execute_task`
  unfoldable pub execute_task : RunState P → AgentTask → Result (ExecuteError P) (RunState P)
  execute_task s t = do
    running_plan ← of_plan (replace_task_status s.task_plan t.task_id TaskStatus.running)
    settle_task (started s t running_plan) t (
        dispatch t (started s t running_plan)
        >>= record_finding same hypothesis_of (started s t running_plan) t)

module _ {P : Type 0} (same : P → P → Bool) (hypothesis_of : Fields → Result TaskError String)
    (dispatch : AgentTask → RunState P → Result TaskError (PlanFinding P))
    (announce : WorkflowEvent P → Result TaskError (Unit {0})) where
  -- `for task in ready: ...`, over the state and the remaining tasks.
  unfoldable pub execute_ready :
      List AgentTask → RunState P → List String → Result (ExecuteError P) (RunState P × List String)
  execute_ready [] s remaining = ok (s, remaining)
  execute_ready (t ∷ ts) s remaining = do
    of_sink (announce (agent_started t))
    s' ← execute_task same hypothesis_of dispatch s t
    of_sink (announce (agent_completed t s'))
    execute_ready ts s' (filter (λ x. not (str_eq t.task_id x)) remaining)

  -- `while remaining: ...`, on fuel.
  unfoldable pub execute_rounds :
      List AgentTask → ℕ → RunState P → List String → Result (ExecuteError P) (RunState P)
  execute_rounds tasks fuel s [] = ok s
  execute_rounds tasks zero s (x ∷ xs) = raise loops
  execute_rounds tasks (suc fuel) s (x ∷ xs) =
      elim (filter (is_ready s.completed_task_ids (x ∷ xs)) tasks) [
        | [] ↦ raise no_executable_task
        | t ∷ ts ↦ elim (execute_ready (t ∷ ts) s (x ∷ xs)) [
          | Result.raise e ↦ raise e
          | ok (s', remaining) ↦ execute_rounds tasks fuel s' remaining
        ]
      ]

  -- `execute`, with the report next to the state that holds it; every round completes a task, so as many rounds as
  -- tasks do.
  unfoldable pub execute :
      {R : Type 0}
      → (RunState P → Result TaskError R)
      → TaskPlan
      → Result (ExecuteError P) (RunState P × R)
  execute generate p = do
    raise_if (any (λ t. not (is_executable t.agent)) p.tasks) unsupported_agents
    s ← execute_rounds p.tasks (length p.tasks) (first_state p) (map (λ t. t.task_id) p.tasks)
    report ← of_report (generate (resting_state s))
    of_sink (announce (investigation_stopped (resting_state s)))
    ok (completed_state s, report)
