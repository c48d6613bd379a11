-- ===== src/Lib.antt =====
-- A verification library for the RCA agent: its backend (backend/yield_rca_api) keeps a queue of
-- root-cause-analysis jobs that workers lease, and a store of memories that engineers approve;
-- its core (core/yield_rca_core) decides the next step of an investigation and collects its
-- evidence.
--
-- Files, and the code they model:
--   Prelude      Python's lists, dictionaries, texts, stable sort, and calls that return or raise
--   Json         the JSON payloads of backend/yield_rca_api/store.py and
--                `_validate_no_sensitive_fields`
--   Queue        `InMemoryRCAJobStore` of backend/yield_rca_api/store.py, with `TaskStatus` of
--                core/yield_rca_core/models.py. Status has the transition table, Records the
--                dataclasses and their checks, Store the state and the shared steps, Workers,
--                Failures and Clients the methods. A call is one step (the code holds one lock for
--                each method) and an exception leaves the store as it was. Effects says what
--                each method writes, Invariant what every reachable store satisfies, Runs what a
--                run of calls is, and the others prove the properties.
--   Policy       core/yield_rca_core/investigation_policy.py: Kinds and Models have the enumerations
--                and records of core/yield_rca_core/investigation_models.py, Rules the registry and
--                the helpers, Decisions `InvestigationPolicy.next_action`; Sound and Choice
--                prove what it decides; Loop, Budget and Dispatch have the controlled
--                loop of core/yield_rca_core/supervisor.py, the specialists being a parameter
--   Evidence     `EvidenceCollection` of core/yield_rca_core/evidence_collection.py
--   Plan         `TaskPlan` of core/yield_rca_core/models.py (Graph) and the fixed plan of
--                core/yield_rca_core/supervisor.py: Execute has `execute`, `_execute_task` and
--                `_record_finding`; the specialists, the generator of the report and the sink of the events
--                are parameters. Order, Search, Ranks, Acyclic and Validation are about the search
--                for cycles, Steps, Rounds, Progress and Completion about the execution; Codec
--                has `to_dict` and `from_dict`, and Roundtrip is about both.
--   Memory       `_apply_decision` and `InMemoryMemoryStore` of backend/yield_rca_api/memory.py, with
--                core/yield_rca_core/memory_models.py: Models and Approvals have the code,
--                DualControl, Runs and Published the proofs
--   Spc          core/yield_rca_core/spc_engine.py: Samples has the records and `_window_violation`, Rules
--                `evaluate_nelson_rules`; Windows and Violations are about what is reported. A `float` is
--                an element of a type with the operations that the rules use, `Floats`, of which no law
--                is assumed, so a NaN is among them.
--   Causal       core/yield_rca_core/causal_candidate_comparison.py: Scores and Comparison have the code, the
--                language model being a parameter; Best is about the preferred candidate, Bounded about
--                what an answer of the model may change. Gaps has core/yield_rca_core/causal_evidence_gap.py, and
--                Covered is about it
--   Worker       backend/yield_rca_api/worker.py over the queue: Faults has `classify_worker_error`, Modes
--                `_select_orchestration_mode` and `_run_workflow`, Once `WorkerSettings` and `run_once`;
--                Transient is about the exceptions that are retried, Selection about the modes,
--                Commits, Outcomes and Mismatch about the end of a workflow, Calls and Served about a
--                whole round
--   Questions    core/yield_rca_core/question_capability.py (Registry, the gate in Gate, the scopes in Scope),
--                question_evidence.py (Links) and question_update_review.py (Verdicts, Review) beside it, with
--                the records of core/yield_rca_core/investigation_models.py (Kinds, Models, Decisions, Codec) and
--                `_missing_groups_for_questions` and `_terminal_question_updates` (Terminal) of
--                next_action_planner.py. Gains is about the gate, Grounded about
--                the links, Fillable, Progress and Stuck about the groups that can be filled, Justified, Judged,
--                Reviewed and Outcomes about the review, Sets, Accepted, Settled and Proposed about what Python proposes, Registered about the registry,
--                Roundtrip about the dictionaries of questions and updates
--   Tests        concrete stores and inputs
--
-- Conventions. A `dict` is an association list in insertion order with different keys. Instants are
-- natural numbers, spans are signed numbers. An exception is a value of an error type. A call
-- of `dataclasses.replace` is followed by the checks of the class's `__post_init__`. The
-- controlled loop runs on fuel, one round more than the goal has steps, which is enough since every
-- round but the last records an action; the search for cycles runs on one more than the number of tasks,
-- since a path holds no task twice, and the execution of a plan on as many rounds as tasks, since every
-- round completes one; all other recursion is structural.
--
-- Admissible calls. `enqueue` is given a record as the API builds it: queued, without attempts and
-- without a lease; `complete` and `fail_attempt` a state of their own job; `create` of the memory store a
-- pending candidate without approvals under a new identifier, as `build_memory_candidate` makes it. The other calls are arbitrary.
--
-- Parameters. In Questions, `casefold`, `upper`, `strip` and `str` of Python are functions on texts,
-- of which only one property is assumed, and that by name: what `strip` leaves is not blank.
-- Elsewhere `lower`, `upper` and `isalnum` are those of ASCII, also where Python's know all of
-- Unicode. `str` of an index is a parameter too. Of the sink of the workflow events it is assumed,
-- by name, that it takes each event without raising. `Evidence` is generic in what the collection
-- only compares, with the equality as a parameter; a memory candidate is generic in the fields that
-- no decision reads. The entries of a finding's `details` are those that the policy reads, with
-- `str` and `int` applied.
--
-- Not modelled: the PostgreSQL stores (their behaviour is that of SQL statements), the HTTP layer,
-- the language-model gateway, the retrieval and the specialist agents (they call services and
-- libraries), the evaluation scripts, and the web frontend.
pub mod Prelude
pub mod Json
pub mod Queue
pub mod Policy
pub mod Evidence
pub mod Plan
pub mod Memory
pub mod Spc
pub mod Causal
pub mod Worker
pub mod Questions
pub mod Tests
