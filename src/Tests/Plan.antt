-- ===== src/Tests/Plan.antt =====
-- The fixed task plan (core/yield_rca_core/models.py, supervisor.py) on small plans.
use autonomous_qwen_react.Prelude.{
  length, ℕ, String, ◌≡◌, ◌≢◌, ◌↔◌, refl, List, [], ◌∷◌, none, Result, ok, raise, ◌==◌, values, get,
  put,
}
use autonomous_qwen_react.Json.{Fields}
use autonomous_qwen_react.Queue.Status.{TaskStatus}
use autonomous_qwen_react.Policy.Kinds.{AgentKind}
use autonomous_qwen_react.Evidence.Collection.{add, add_all, merge, same_evidence}
use autonomous_qwen_react.Plan.Graph.{
  AgentTask, TaskPlan, FindingKind, PlanError, check_plan, validate_task_graph, visit_all, visit,
}
use autonomous_qwen_react.Plan.Ranks.{IsAcyclic}
use autonomous_qwen_react.Plan.Execute.{
  PlanFinding, RunState, TaskError, task_error, WorkflowEvent, execute, execute_rounds,
  execute_ready, execute_task, settle_task, record_finding, accept_finding, authority,
  replace_task_status,
}
use autonomous_qwen_react.Plan.Validation.{validate_task_graph_iff}
use autonomous_qwen_react.Plan.Codec.{plan_to_dict, plan_from_dict}
use autonomous_qwen_react.Plan.Roundtrip.{plan_from_dict-plan_to_dict}

abbrev task : String → AgentKind → List String → AgentTask
task name agent deps = record {
  task_id = name;
  agent = agent;
  objective = "observe";
  depends_on = deps;
  status = TaskStatus.pending;
  inputs = [];
  finding_kind = FindingKind.specialist_observation;
}

-- The tasks stand in the opposite order of their dependencies.
abbrev plan : TaskPlan
plan = record {
  plan_id = "P1";
  objective = "explain the yield loss";
  tasks =
      task "T3" AgentKind.knowledge ("T2" ∷ "T1" ∷ [])
      ∷ task "T2" AgentKind.fdc ("T1" ∷ [])
      ∷ task "T1" AgentKind.mes []
      ∷ [];
}

abbrev finding : AgentTask → PlanFinding ℕ
finding t = record {
  finding_id = "F";
  agent = t.agent;
  task_id = none;
  finding_kind = FindingKind.specialist_observation;
  evidence_ids = "E1" ∷ [];
  evidence = (record { evidence_id = "E1"; evidence_type = none; entities = []; payload = 5 }) ∷ [];
  details = [];
}

-- Every specialist answers.
abbrev answers : AgentTask → RunState ℕ → Result TaskError (PlanFinding ℕ)
answers t s = ok (finding t)

abbrev no_hypothesis : Fields → Result TaskError String
no_hypothesis d = raise task_error

validate_task_graph_iff_example :
    ((validate_task_graph (("A", "B" ∷ []) ∷ ("B", "A" ∷ []) ∷ []) ≡ ok tt)
      ↔ IsAcyclic (("A", "B" ∷ []) ∷ ("B", "A" ∷ []) ∷ []))
    × (validate_task_graph (("A", "B" ∷ []) ∷ ("B", "A" ∷ []) ∷ []) ≢ raise PlanError.out_of_fuel)
validate_task_graph_iff_example = validate_task_graph_iff (("A", "B" ∷ []) ∷ ("B", "A" ∷ []) ∷ [])

cyclic : validate_task_graph (("A", "B" ∷ []) ∷ ("B", "A" ∷ []) ∷ []) ≡ raise PlanError.cycle
unfolding validate_task_graph visit_all visit
cyclic = refl

plan-valid : check_plan plan ≡ ok tt
unfolding check_plan validate_task_graph visit_all visit
plan-valid = refl

abbrev taken : WorkflowEvent ℕ → Result TaskError (Unit {0})
taken e = ok tt

-- The report says how many tasks were done.
abbrev counted : RunState ℕ → Result TaskError ℕ
counted s = ok (length s.completed_task_ids)

-- The tasks of the plan in the order in which they were done.
abbrev done : List String
unfolding execute execute_rounds execute_ready execute_task settle_task record_finding
    accept_finding authority replace_task_status check_plan validate_task_graph visit_all visit
    merge add_all add same_evidence values get put
done = elim (execute (λ a b. a == b) no_hypothesis answers taken counted plan) [
  | ok (s, report) ↦ s.completed_task_ids
  | Result.raise e ↦ []
]

in_order : done ≡ "T1" ∷ "T2" ∷ "T3" ∷ []
unfolding done
in_order = refl

plan_from_dict-plan_to_dict_example : plan_from_dict (plan_to_dict plan) ≡ ok plan
plan_from_dict-plan_to_dict_example =
    plan_from_dict-plan_to_dict plan (refl, (refl, (refl, tt))) plan-valid
