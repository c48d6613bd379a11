-- ===== src/Plan/Roundtrip.antt =====
-- Plans through `to_dict` and back (core/yield_rca_core/models.py).
use autonomous_qwen_react.Prelude.{
  String, Bool, true, not, List, [], ◌∷◌, all, All, Dict, ok, raise_if, >>=-ok, raise_if-eq-ok, ◌≡◌,
  refl, ap, ◌∙◌, arith,
}
use autonomous_qwen_react.Json.{Json, text}
use autonomous_qwen_react.Queue.Status.{TaskStatus, value}
use autonomous_qwen_react.Policy.Kinds.{AgentKind, agent_value}
use autonomous_qwen_react.Policy.Models.{is_filled}
use autonomous_qwen_react.Plan.Graph.{FindingKind, AgentTask, TaskPlan, PlanError, check_plan}
use autonomous_qwen_react.Plan.Codec.{
  DecodeError, finding_kind_value, agents, finding_kinds, statuses, texts, fields_of, dict_of,
  task_to_dict, plan_items, plan_to_dict, item_texts, validate_non_empty, validate_string_list,
  enum_value, or_default, build_task, task_from_dict, tasks_from, of_check, plan_from_dict,
  is_valid_task,
}

agent-member : (a : AgentKind) → enum_value agent_value agents (text (agent_value a)) ≡ ok a
agent-member AgentKind.planner = refl
agent-member AgentKind.supervisor = refl
agent-member AgentKind.mes = refl
agent-member AgentKind.fdc = refl
agent-member AgentKind.defect_wat = refl
agent-member AgentKind.knowledge = refl
agent-member AgentKind.rca_reasoning = refl
agent-member AgentKind.improvement = refl
agent-member AgentKind.report = refl

kind-member :
    (a : AgentKind) (k : FindingKind)
    → enum_value finding_kind_value finding_kinds (or_default a (text (finding_kind_value k)))
      ≡ ok k
kind-member a FindingKind.specialist_observation = refl
kind-member a FindingKind.knowledge_discovery = refl
kind-member a FindingKind.knowledge_validation = refl
kind-member a FindingKind.hypothesis_generation = refl
kind-member a FindingKind.hypothesis_ranking = refl
kind-member a FindingKind.improvement = refl

status-member : (s : TaskStatus) → enum_value value statuses (text (value s)) ≡ ok s
status-member TaskStatus.queued = refl
status-member TaskStatus.pending = refl
status-member TaskStatus.running = refl
status-member TaskStatus.retry_wait = refl
status-member TaskStatus.cancel_requested = refl
status-member TaskStatus.completed = refl
status-member TaskStatus.failed = refl
status-member TaskStatus.cancelled = refl
status-member TaskStatus.skipped = refl

pub dict_of-fields_of : (d : Dict Json) → dict_of (fields_of d) ≡ d
dict_of-fields_of [] = refl
dict_of-fields_of ((k, v) ∷ d) = ap (λ e. (k, v) ∷ e) (dict_of-fields_of d)

item_texts-texts : (xs : List String) → item_texts (texts xs) ≡ ok xs
item_texts-texts [] = refl
item_texts-texts (x ∷ xs) = rw (item_texts-texts xs) refl

filled : (s : String) → is_filled s ≡ true → validate_non_empty (text s) ≡ ok s
filled s h = rw h refl

passes : (b : Bool) → b ≡ true → raise_if (not b) DecodeError.model_validation_error ≡ ok tt
passes b h = rw h refl

-- A plan that was built has an identifier and an objective.
names_filled :
    (p : TaskPlan)
    → check_plan p ≡ ok tt
    → (is_filled p.plan_id ≡ true) × (is_filled p.objective ≡ true)
unfolding check_plan
names_filled p c =
    let (i, r) = raise_if-eq-ok (not (is_filled p.plan_id)) PlanError.empty_field _ c in
    let (o, _) = raise_if-eq-ok (not (is_filled p.objective)) PlanError.empty_field _ r in
    (ground (arith, i), ground (arith, o))

filled_texts :
    (xs : List String) → all is_filled xs ≡ true → validate_string_list (texts xs) ≡ ok xs
filled_texts xs h = rw (item_texts-texts xs, h) refl

task_from_dict-task_to_dict :
    (t : AgentTask) → is_valid_task t ≡ true → task_from_dict (task_to_dict t) ≡ ok t
unfolding task_from_dict task_to_dict build_task
task_from_dict-task_to_dict t h =
    >>=-ok _ (filled t.task_id (ground (arith, h)))
    ∙ >>=-ok _ (agent-member t.agent)
    ∙ >>=-ok _ (kind-member t.agent t.finding_kind)
    ∙ >>=-ok _ (filled t.objective (ground (arith, h)))
    ∙ >>=-ok _ (filled_texts t.depends_on (ground (arith, h)))
    ∙ >>=-ok _ (status-member t.status)
    ∙ rw (dict_of-fields_of t.inputs)
        (>>=-ok _ (passes (all (λ e. is_filled e.0) t.inputs) (ground (arith, h))))

tasks_from-plan_items :
    (ts : List AgentTask)
    → All (λ t. is_valid_task t ≡ true) ts
    → tasks_from (plan_items ts) ≡ ok ts
tasks_from-plan_items [] h = refl
tasks_from-plan_items (t ∷ ts) (v, h) =
    rw (task_from_dict-task_to_dict t v, tasks_from-plan_items ts h) refl

-- A plan that was built, of tasks that were built, comes back unchanged through its dictionary.
pub plan_from_dict-plan_to_dict :
    (p : TaskPlan)
    → All (λ t. is_valid_task t ≡ true) p.tasks
    → check_plan p ≡ ok tt
    → plan_from_dict (plan_to_dict p) ≡ ok p
unfolding plan_from_dict plan_to_dict
plan_from_dict-plan_to_dict p h c =
    >>=-ok _ (tasks_from-plan_items p.tasks h)
    ∙ >>=-ok _ (filled p.plan_id (names_filled p c).0)
    ∙ >>=-ok _ (filled p.objective (names_filled p c).1)
    ∙ >>=-ok _ (ap of_check c)
