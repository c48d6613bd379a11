-- ===== src/Policy/Models.antt =====
-- The records of core/yield_rca_core/investigation_models.py that the policy reads and makes, with
-- the checks of their `__post_init__`, and what it reads of a finding.
use Prim.Native.Char.{code}
use autonomous_qwen_react.Prelude.{
  ℕ, has_duplicates, joined, ◌≡◌, String, Bool, true, false, not, ◌&&◌, ◌||◌, List, all, ◌==◌, leb,
  ltb, Dict, ℤ, Option, Result, ◌>>◌, raise_if, arith,
}
use autonomous_qwen_react.Json.{Json}
use autonomous_qwen_react.Policy.Kinds.{AgentKind, ActionKind, InvestigationIntent}

-- `InvestigationValidationError`, the `ValueError` of the policy and of an enumeration, and
-- `StopIteration`.
pub data PolicyError : Type 0 where
  validation_error value_error stop_iteration : PolicyError

-- What `str.strip` removes.
abbrev pub is_space : ℕ → Bool
is_space c =
    (leb 9 c && leb c 13)
    || (leb 28 c && leb c 32)
    || c == 133
    || c == 160
    || c == 5760
    || (leb 8192 c && leb c 8202)
    || c == 8232
    || c == 8233
    || c == 8239
    || c == 8287
    || c == 12288

-- `bool(text.strip())`
abbrev pub is_filled : String → Bool
is_filled String.[] = false
is_filled (String.◌∷◌ c s) = not (is_space (code c)) || is_filled s

pub is_filled-joined : (s t : String) → is_filled t ≡ true → is_filled (joined s t) ≡ true
is_filled-joined String.[] t h = h
is_filled-joined (String.◌∷◌ c s) t h = ground (arith, is_filled-joined s t h)

-- `_non_empty`
unfoldable pub non_empty : String → Result PolicyError (Unit {0})
non_empty s = raise_if (not (is_filled s)) PolicyError.validation_error

-- `_string_list`
unfoldable pub string_list : List String → Result PolicyError (Unit {0})
string_list xs = do
  raise_if (not (all is_filled xs)) PolicyError.validation_error
  raise_if (has_duplicates xs) PolicyError.validation_error

-- `_json_object`; a value of type `Json` can be printed.
unfoldable pub json_object : Dict Json → Result PolicyError (Unit {0})
json_object d =
    raise_if (not (all (λ (e : String × Json). is_filled e.0) d)) PolicyError.validation_error

pub record InvestigationGoal : Type 0 where
  pub goal_id : String
  pub intent : InvestigationIntent
  pub summary : String
  pub known_facts : Dict Json
  pub required_evidence : List String
  pub max_steps : ℕ
  pub max_tool_calls : ℕ

abbrev pub max_cross_domain_actions : ℕ
max_cross_domain_actions = 8

-- `InvestigationGoal.__post_init__`
unfoldable pub check_goal : InvestigationGoal → Result PolicyError (Unit {0})
check_goal g = do
  non_empty g.goal_id
  non_empty g.summary
  json_object g.known_facts
  string_list g.required_evidence
  raise_if (ltb g.max_steps 1 || ltb max_cross_domain_actions g.max_steps)
      PolicyError.validation_error
  raise_if (ltb g.max_tool_calls 1) PolicyError.validation_error

pub record InvestigationAction : Type 0 where
  pub action_id : String
  pub kind : ActionKind
  pub agent : String
  pub reason : String
  pub inputs : Dict Json
  pub scope : Dict Json
  pub required_evidence_ids : List String
  pub max_attempts : ℕ

-- `InvestigationAction.__post_init__`
unfoldable pub check_action : InvestigationAction → Result PolicyError (Unit {0})
check_action a = do
  non_empty a.action_id
  non_empty a.agent
  non_empty a.reason
  json_object a.inputs
  json_object a.scope
  string_list a.required_evidence_ids
  raise_if (ltb a.max_attempts 1) PolicyError.validation_error

pub data ActionStatus : Type 0 where
  completed skipped failed : ActionStatus

pub record ActionRecord : Type 0 where
  pub action : InvestigationAction
  pub status : ActionStatus
  pub produced_finding_ids : List String
  pub produced_evidence_ids : List String
  pub decision_summary : String

-- Of `AgentFinding.details`, the entries that the policy reads: the text of `status`, the
-- `evidence_scope`, and the `defect_patterns` with their counts.
pub record Details : Type 0 where
  pub status : Option String
  pub evidence_scope : Option String
  pub defect_patterns : Dict ℤ

pub record AgentFinding : Type 0 where
  pub finding_id : String
  pub agent : AgentKind
  pub summary : String
  pub evidence_ids : List String
  pub details : Details
