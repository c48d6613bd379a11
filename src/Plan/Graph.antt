-- ===== src/Plan/Graph.antt =====
-- `AgentTask`, `TaskPlan` and its check `_validate_task_graph` of core/yield_rca_core/models.py.
use autonomous_qwen_react.Prelude.{
  ℕ, zero, suc, String, Bool, true, false, not, List, [], ◌∷◌, map, any, length, str_eq,
  has_duplicates, Dict, Result, ok, raise, ◌>>=◌, ◌>>◌, raise_if, if◌then◌else◌,
}
use autonomous_qwen_react.Json.{Json}
use autonomous_qwen_react.Queue.Status.{TaskStatus}
use autonomous_qwen_react.Policy.Kinds.{AgentKind}
use autonomous_qwen_react.Policy.Models.{is_filled}

pub data FindingKind : Type 0 where
  specialist_observation knowledge_discovery knowledge_validation : FindingKind
  hypothesis_generation hypothesis_ranking improvement : FindingKind

pub record AgentTask : Type 0 where
  pub task_id : String
  pub agent : AgentKind
  pub objective : String
  pub depends_on : List String
  pub status : TaskStatus
  pub inputs : Dict Json
  pub finding_kind : FindingKind

pub record TaskPlan : Type 0 where
  pub plan_id : String
  pub objective : String
  pub tasks : List AgentTask

-- The `ModelValidationError`s of a plan; the last stands for a call that does not return.
pub data PlanError : Type 0 where
  empty_field duplicate_task_id unknown_dependency cycle out_of_fuel : PlanError

-- `x in ids`
abbrev pub contains : List String → String → Bool
contains ids x = any (str_eq x) ids

-- The edges of the plan: each task with its dependencies.
abbrev pub edges : List AgentTask → List (String × List String)
edges tasks = map (λ t. (t.task_id, t.depends_on)) tasks

abbrev pub ids : List (String × List String) → List String
ids graph = map (λ e. e.0) graph

-- `graph[task_id]`, of a task that is there.
abbrev pub dependencies : List (String × List String) → String → List String
dependencies [] x = []
dependencies ((i, deps) ∷ graph) x = if str_eq i x then deps else dependencies graph x

-- `for dependency_id in ...: visit(dependency_id)`, over the visited tasks.
abbrev pub each {ℓ} :
    {S : Type ℓ} → (String → S → Result PlanError S) → List String → S → Result PlanError S
each step [] s = ok s
each step (x ∷ xs) s = do s' ← step x s; each step xs s'

-- `visit`, on fuel: it returns the visited tasks, the last one first. `visiting` is the path to the
-- task, as the code removes a task from it when its visit ends.
unfoldable pub visit :
    List (String × List String)
    → ℕ
    → List String
    → String
    → List String
    → Result PlanError (List String)
visit graph zero visiting x visited = raise out_of_fuel
visit graph (suc fuel) visiting x visited =
    if contains visiting x then raise cycle else if contains visited x then ok visited else do
      visited' ← each (visit graph fuel (x ∷ visiting)) (dependencies graph x) visited
      ok (x ∷ visited')

-- The visits of `_validate_task_graph`; a path holds every task at most once.
unfoldable pub visit_all : List (String × List String) → Result PlanError (List String)
visit_all graph = each (visit graph (suc (length graph)) []) (ids graph) []

unfoldable pub validate_task_graph : List (String × List String) → Result PlanError (Unit {0})
validate_task_graph graph = do
  raise_if (has_duplicates (ids graph)) duplicate_task_id
  raise_if (any (λ e. any (λ d. not (contains (ids graph) d)) e.1) graph) unknown_dependency
  visited ← visit_all graph
  ok tt

-- `not tasks`
abbrev pub is_empty : List AgentTask → Bool
is_empty [] = true
is_empty (t ∷ ts) = false

-- `TaskPlan.__post_init__`
unfoldable pub check_plan : TaskPlan → Result PlanError (Unit {0})
check_plan p = do
  raise_if (not (is_filled p.plan_id)) empty_field
  raise_if (not (is_filled p.objective)) empty_field
  raise_if (is_empty p.tasks) empty_field
  validate_task_graph (edges p.tasks)
