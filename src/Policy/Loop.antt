-- ===== src/Policy/Loop.antt =====
-- `Supervisor._continue_controlled` of core/yield_rca_core/supervisor.py: the loop that asks the
-- policy, lets a specialist act and records what it found, on fuel. `dispatch` stands for
-- `_dispatch_controlled`: the finding of the specialists and the number of tool calls they made.
use autonomous_qwen_react.Prelude.{
  ℕ, zero, suc, ◌+◌, ◌-◌, not, false, true, Bool, String, List, [], ◌∷◌, ◌++◌, any, ltb, str_eq,
  Option, none, some, Result, ok, ◌>>=◌, ◌>>◌, raise_if, if◌then◌else◌, get,
}
use autonomous_qwen_react.Json.{Json}
use autonomous_qwen_react.Policy.Kinds.{ActionKind, agent_value}
use autonomous_qwen_react.Policy.Models.{
  PolicyError, is_filled, InvestigationGoal, InvestigationAction, ActionRecord, ActionStatus,
  AgentFinding,
}
use autonomous_qwen_react.Policy.Rules.{PolicyDecision, truthy}
use autonomous_qwen_react.Policy.Decisions.{next_action}

-- What the loop reads and writes of `RCAState`, and the number of observed tool calls.
pub record Progress : Type 0 where
  pub findings : List AgentFinding
  pub action_history : List ActionRecord
  pub tool_call_count : ℕ

pub data LoopError : Type 0 where
  policy_error : PolicyError → LoopError
  execution_error : LoopError

abbrev pub of_policy {ℓ} : {A : Type ℓ} → Result PolicyError A → Result LoopError A
of_policy (ok a) = ok a
of_policy (Result.raise e) = Result.raise (policy_error e)

-- How the loop ends: with a terminal decision, an exception, or for want of fuel.
pub data Ending : Type 0 where
  stopped : Progress → PolicyDecision → Ending
  raised : LoopError → Ending
  out_of_fuel : Ending

-- `bool(str(value).strip())` for a value that is true.
abbrev has_text : Json → Bool
has_text (Json.text s) = is_filled s
has_text _ = true

abbrev is_lot : Option String → Bool
is_lot none = false
is_lot (some s) = is_filled s

-- Whether `action.inputs.get("lot_id") or state.job.source_lot_id or ""` names a lot.
abbrev names_lot : Option Json → Option String → Bool
names_lot none source_lot = is_lot source_lot
names_lot (some v) source_lot = if truthy v then has_text v else is_lot source_lot

-- `_controlled_action_tool_cost`, of a supervisor with or without the SPC tool and a job with a
-- source lot or none.
unfoldable pub controlled_action_tool_cost :
    Bool → Option String → InvestigationAction → Progress → ℕ
controlled_action_tool_cost with_spc source_lot a p = elim a.kind [
  | ActionKind.inspect_defect_pattern ↦ 1
  | ActionKind.validate_shared_defect_pattern ↦ 1
  | ActionKind.validate_historical_case ↦ 1
  | ActionKind.find_shared_exposure ↦ if names_lot (get "lot_id" a.inputs) source_lot then 3 else 2
  | ActionKind.inspect_fdc_spc ↦ if with_spc then 4 else 3
  | _ ↦ 0
]

-- Of `_record_controlled_finding`, the checks of the agent and of the finding's identifier, and
-- what it appends.
unfoldable pub record_finding :
    Progress → InvestigationAction → AgentFinding → ℕ → Result LoopError Progress
record_finding p a f calls = do
  raise_if (not (str_eq (agent_value f.agent) a.agent)) execution_error
  raise_if (any (λ x. str_eq x.finding_id f.finding_id) p.findings) execution_error
  ok (record {
    findings = p.findings ++ f ∷ [];
    action_history =
        p.action_history
        ++ (record {
          action = a;
          status = ActionStatus.completed;
          produced_finding_ids = f.finding_id ∷ [];
          produced_evidence_ids = f.evidence_ids;
          decision_summary = f.summary;
        })
          ∷ [];
    tool_call_count = p.tool_call_count + calls;
  })

module _ (cost : InvestigationAction → Progress → ℕ) where
  -- The decision of one round: an action whose tool calls do not fit is replaced by what the policy
  -- decides with the budget spent.
  unfoldable pub decide : InvestigationGoal → Progress → Result LoopError PolicyDecision
  decide g p = do
    d ← of_policy (next_action g p.findings p.action_history p.tool_call_count [])
    elim d.next_action [
      | none ↦ ok d
      | some a ↦
          if ltb (g.max_tool_calls - p.tool_call_count) (cost a p)
          then of_policy (next_action g p.findings p.action_history g.max_tool_calls [])
          else ok d
    ]

module _ (dispatch : InvestigationAction → Progress → Result LoopError (AgentFinding × ℕ)) where
  -- One action of the loop.
  unfoldable pub act : InvestigationAction → Progress → Result LoopError Progress
  act a p = do (f, calls) ← dispatch a p; record_finding p a f calls

module _ (cost : InvestigationAction → Progress → ℕ)
    (dispatch : InvestigationAction → Progress → Result LoopError (AgentFinding × ℕ)) where
  -- `_continue_controlled`
  unfoldable pub continue_controlled : InvestigationGoal → ℕ → Progress → Ending
  continue_controlled g zero p = out_of_fuel
  continue_controlled g (suc fuel) p = elim (decide cost g p) [
    | Result.raise e ↦ raised e
    | ok d ↦ elim d.next_action [
      | none ↦ stopped p d
      | some a ↦ elim (act dispatch a p) [
        | Result.raise e ↦ raised e
        | ok p' ↦ continue_controlled g fuel p'
      ]
    ]
  ]

-- The state that `execute_controlled` begins with.
abbrev pub start : Progress
start = record { findings = []; action_history = []; tool_call_count = 0 }

-- `execute_controlled`, with one round more than the goal has steps.
unfoldable pub execute_controlled :
    Bool
    → Option String
    → (InvestigationAction → Progress → Result LoopError (AgentFinding × ℕ))
    → InvestigationGoal
    → Ending
execute_controlled with_spc source_lot dispatch g =
    continue_controlled (controlled_action_tool_cost with_spc source_lot) dispatch g
      (suc g.max_steps) start
