-- ===== src/Plan/Codec.antt =====
-- `to_dict` and `from_dict` of `AgentTask` and `TaskPlan` (core/yield_rca_core/models.py). A JSON object
-- is the fields of a `dict`. What `dict()` makes of a list of pairs for `inputs` is left out.
use autonomous_qwen_react.Prelude.{
  String, Bool, not, List, [], ◌∷◌, all, str_eq, Dict, Result, ok, raise, ◌>>=◌, ◌>>◌, raise_if,
  if◌then◌else◌, non_empty, ◌&&◌,
}
use autonomous_qwen_react.Json.{Json, Items, Fields, text, array, object, item, end, field, nil}
use autonomous_qwen_react.Queue.Status.{TaskStatus, value}
use autonomous_qwen_react.Policy.Kinds.{AgentKind, agent_value}
use autonomous_qwen_react.Policy.Models.{is_filled}
use autonomous_qwen_react.Plan.Graph.{FindingKind, AgentTask, TaskPlan, PlanError, check_plan}

-- A `KeyError`, a `TypeError`, or a `ModelValidationError`.
pub data DecodeError : Type 0 where
  key_error type_error model_validation_error : DecodeError

-- `SCHEMA_VERSION`
abbrev pub schema_version : String
schema_version = "1.0"

-- `FindingKind.X.value`
abbrev pub finding_kind_value : FindingKind → String
finding_kind_value FindingKind.specialist_observation = "specialist_observation"
finding_kind_value FindingKind.knowledge_discovery = "knowledge_discovery"
finding_kind_value FindingKind.knowledge_validation = "knowledge_validation"
finding_kind_value FindingKind.hypothesis_generation = "hypothesis_generation"
finding_kind_value FindingKind.hypothesis_ranking = "hypothesis_ranking"
finding_kind_value FindingKind.improvement = "improvement"

-- `enum_type(value)`, over the members of the enumeration.
abbrev pub member {ℓ} : {A : Type ℓ} → (A → String) → List A → String → Result DecodeError A
member value_of [] s = raise model_validation_error
member value_of (a ∷ as') s = if str_eq (value_of a) s then ok a else member value_of as' s

abbrev pub agents : List AgentKind
agents =
    AgentKind.planner ∷ AgentKind.supervisor ∷ AgentKind.mes ∷ AgentKind.fdc ∷ AgentKind.defect_wat
    ∷ AgentKind.knowledge ∷ AgentKind.rca_reasoning ∷ AgentKind.improvement ∷ AgentKind.report ∷ []

abbrev pub finding_kinds : List FindingKind
finding_kinds =
    FindingKind.specialist_observation ∷ FindingKind.knowledge_discovery
    ∷ FindingKind.knowledge_validation ∷ FindingKind.hypothesis_generation
    ∷ FindingKind.hypothesis_ranking ∷ FindingKind.improvement ∷ []

abbrev pub statuses : List TaskStatus
statuses =
    TaskStatus.queued ∷ TaskStatus.pending ∷ TaskStatus.running ∷ TaskStatus.retry_wait
    ∷ TaskStatus.cancel_requested ∷ TaskStatus.completed ∷ TaskStatus.failed ∷ TaskStatus.cancelled
    ∷ TaskStatus.skipped ∷ []

-- `_default_finding_kind`
abbrev pub default_finding_kind : AgentKind → FindingKind
default_finding_kind AgentKind.knowledge = FindingKind.knowledge_discovery
default_finding_kind AgentKind.rca_reasoning = FindingKind.hypothesis_ranking
default_finding_kind AgentKind.improvement = FindingKind.improvement
default_finding_kind _ = FindingKind.specialist_observation

abbrev pub texts : List String → Items
texts [] = end
texts (x ∷ xs) = item (text x) (texts xs)

abbrev pub fields_of : Dict Json → Fields
fields_of [] = nil
fields_of ((k, v) ∷ d) = field k v (fields_of d)

abbrev pub dict_of : Fields → Dict Json
dict_of nil = []
dict_of (field k v fs) = (k, v) ∷ dict_of fs

-- `AgentTask.to_dict`
unfoldable pub task_to_dict : AgentTask → Fields
task_to_dict t = field "task_id" (text t.task_id) (
    field "agent" (text (agent_value t.agent)) (
      field "objective" (text t.objective) (
        field "depends_on" (array (texts t.depends_on)) (
          field "status" (text (value t.status)) (
            field "inputs" (object (fields_of t.inputs)) (
              field "finding_kind" (text (finding_kind_value t.finding_kind))
                (field "schema_version" (text schema_version) nil)))))))

abbrev pub plan_items : List AgentTask → Items
plan_items [] = end
plan_items (t ∷ ts) = item (object (task_to_dict t)) (plan_items ts)

-- `TaskPlan.to_dict`
unfoldable pub plan_to_dict : TaskPlan → Fields
plan_to_dict p = field "plan_id" (text p.plan_id) (
    field "objective" (text p.objective) (
      field "tasks" (array (plan_items p.tasks))
        (field "schema_version" (text schema_version) nil)))

-- `data.get(key, default)`
abbrev pub get_or : String → Json → Fields → Json
get_or key default nil = default
get_or key default (field k v fs) = if str_eq k key then v else get_or key default fs

-- `data[key]`
abbrev pub required : String → Fields → Result DecodeError Json
required key nil = raise key_error
required key (field k v fs) = if str_eq k key then ok v else required key fs

-- A value that must be a text; what is none fails the checks of the class.
abbrev pub as_text : Json → Result DecodeError String
as_text (text s) = ok s
as_text _ = raise model_validation_error

-- The characters of a text, as `list` takes them.
abbrev pub characters : String → Items
characters String.[] = end
characters (String.◌∷◌ c s) = item (text (String.◌∷◌ c String.[])) (characters s)

abbrev pub keys : Fields → Items
keys nil = end
keys (field k v fs) = item (text k) (keys fs)

-- `list(value)`
abbrev pub as_list : Json → Result DecodeError Items
as_list (array xs) = ok xs
as_list (text s) = ok (characters s)
as_list (object fs) = ok (keys fs)
as_list _ = raise type_error

abbrev pub item_texts : Items → Result DecodeError (List String)
item_texts end = ok []
item_texts (item x xs) = do s ← as_text x; rest ← item_texts xs; ok (s ∷ rest)

-- `dict(value)`
abbrev pub as_dict : Json → Result DecodeError (Dict Json)
as_dict (object fs) = ok (dict_of fs)
as_dict _ = raise type_error

-- `_validate_schema_version`
abbrev pub validate_schema_version : Json → Result DecodeError (Unit {0})
validate_schema_version j = do
  s ← as_text j
  raise_if (not (str_eq s schema_version)) model_validation_error

-- `_validate_non_empty`, with the text.
abbrev pub validate_non_empty : Json → Result DecodeError String
validate_non_empty j = do s ← as_text j; raise_if (not (is_filled s)) model_validation_error; ok s

-- `_validate_string_list`, with the texts.
abbrev pub validate_string_list : Items → Result DecodeError (List String)
validate_string_list xs = do
  ss ← item_texts xs
  raise_if (not (all is_filled ss)) model_validation_error
  ok ss

-- `_enum_value`
abbrev pub enum_value {ℓ} : {A : Type ℓ} → (A → String) → List A → Json → Result DecodeError A
enum_value value_of as' j = do s ← as_text j; member value_of as' s

-- `self.finding_kind or _default_finding_kind(self.agent)`
abbrev pub or_default : AgentKind → Json → Json
or_default agent (text s) =
    if non_empty s then text s else text (finding_kind_value (default_finding_kind agent))
or_default agent Json.null = text (finding_kind_value (default_finding_kind agent))
or_default agent j = j

-- `AgentTask(...)`: the checks of its `__post_init__`, in their order.
unfoldable pub build_task :
    Json → Json → Json → Items → Json → Dict Json → Json → Json → Result DecodeError AgentTask
build_task task_id agent objective depends_on status inputs finding_kind version = do
  validate_schema_version version
  i ← validate_non_empty task_id
  a ← enum_value agent_value agents agent
  k ← enum_value finding_kind_value finding_kinds (or_default a finding_kind)
  o ← validate_non_empty objective
  ds ← validate_string_list depends_on
  st ← enum_value value statuses status
  raise_if (not (all (λ e. is_filled e.0) inputs)) model_validation_error
  ok (record {
    task_id = i;
    agent = a;
    objective = o;
    depends_on = ds;
    status = st;
    inputs = inputs;
    finding_kind = k;
  })

-- `AgentTask.from_dict`
unfoldable pub task_from_dict : Fields → Result DecodeError AgentTask
task_from_dict entries = do
  task_id ← required "task_id" entries
  agent ← required "agent" entries
  objective ← required "objective" entries
  depends_on ← as_list (get_or "depends_on" (array end) entries)
  inputs ← as_dict (get_or "inputs" (object nil) entries)
  build_task task_id agent objective depends_on
      (get_or "status" (text (value TaskStatus.pending)) entries) inputs
      (get_or "finding_kind" (text "") entries)
      (get_or "schema_version" (text schema_version) entries)

-- `[AgentTask.from_dict(item) for item in ...]`
abbrev pub tasks_from : Items → Result DecodeError (List AgentTask)
tasks_from end = ok []
tasks_from (item (object fs) xs) = do t ← task_from_dict fs; rest ← tasks_from xs; ok (t ∷ rest)
tasks_from (item _ xs) = raise type_error

abbrev pub of_check : Result PlanError (Unit {0}) → Result DecodeError (Unit {0})
of_check (ok u) = ok u
of_check (Result.raise e) = raise model_validation_error

-- `TaskPlan.from_dict`
unfoldable pub plan_from_dict : Fields → Result DecodeError TaskPlan
plan_from_dict entries = do
  plan_id ← required "plan_id" entries
  objective ← required "objective" entries
  raw ← required "tasks" entries
  xs ← as_list raw
  ts ← tasks_from xs
  validate_schema_version (get_or "schema_version" (text schema_version) entries)
  i ← validate_non_empty plan_id
  o ← validate_non_empty objective
  of_check (check_plan (record { plan_id = i; objective = o; tasks = ts }))
  ok (record { plan_id = i; objective = o; tasks = ts })

-- What the checks of `AgentTask` ask of its entries here.
abbrev pub is_valid_task : AgentTask → Bool
is_valid_task t =
    is_filled t.task_id
    && is_filled t.objective
    && all is_filled t.depends_on
    && all (λ e. is_filled e.0) t.inputs
