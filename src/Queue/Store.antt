-- ===== src/Queue/Store.antt =====
-- `InMemoryRCAJobStore` of backend/yield_rca_api/store.py: its state, and the steps that its
-- methods share. The lock makes each method one step.
use autonomous_qwen_react.Prelude.{
  ℕ, String, Bool, false, ◌&&◌, List, [], ◌∷◌, ◌++◌, ◌+◌, length, ltb, ◌==◌, str_eq, Option, none,
  some, get, put, Dict, if◌then◌else◌,
}
use autonomous_qwen_react.Json.{Json}
use autonomous_qwen_react.Queue.Records.{
  Time, QueueRecord, AttemptRecord, EventRecord, WorkerHeartbeat,
}

pub record Store : Type 0 where
  pub records : Dict QueueRecord
  pub idempotency_index : Dict String
  pub attempts : Dict (List AttemptRecord)
  pub events : Dict (List EventRecord)
  pub worker_heartbeats : Dict WorkerHeartbeat

-- `InMemoryRCAJobStore()`
abbrev pub empty : Store
empty = record {
  records = [];
  idempotency_index = [];
  attempts = [];
  events = [];
  worker_heartbeats = [];
}

-- `self._attempts.get(job_id, [])`, and the same of the events.
abbrev pub rows {ℓ} : {A : Type ℓ} → Option (List A) → List A
rows none = []
rows (some xs) = xs

abbrev pub attempts_of : Store → String → List AttemptRecord
attempts_of s job_id = rows (get job_id s.attempts)

abbrev pub events_of : Store → String → List EventRecord
events_of s job_id = rows (get job_id s.events)

abbrev has_owner : Option String → String → Bool
has_owner none worker_id = false
has_owner (some w) worker_id = str_eq w worker_id

abbrev runs_past : Option Time → Time → Bool
runs_past none now = false
runs_past (some t) now = ltb now t

-- `_owns_active_lease`
unfoldable pub owns_active_lease : QueueRecord → String → Time → Bool
owns_active_lease r worker_id now =
    has_owner r.lease_owner worker_id && runs_past r.lease_expires_at now

-- The event that `_append_event` makes.
abbrev pub next_event : Store → String → String → Json → Time → EventRecord
next_event s job_id event_type payload now = record {
  job_id = job_id;
  sequence = length (events_of s job_id) + 1;
  event_type = event_type;
  payload = payload;
  created_at = now;
}

-- `_append_event`
unfoldable pub append_event : String → String → Json → Time → Store → Store
append_event job_id event_type payload now s = record s {
  events =
      put job_id (events_of s job_id ++ next_event s job_id event_type payload now ∷ []) s.events;
}

-- `self._records[job_id] = record`
unfoldable pub put_record : String → QueueRecord → Store → Store
put_record job_id r s = record s { records = put job_id r s.records }

-- `self._attempts.setdefault(job_id, []).append(attempt)`
unfoldable pub append_attempt : String → AttemptRecord → Store → Store
append_attempt job_id a s = record s {
  attempts = put job_id (attempts_of s job_id ++ a ∷ []) s.attempts;
}

-- The loop of `_replace_attempt`: the first attempt with the number is updated.
unfoldable pub update_attempt :
    ℕ → (AttemptRecord → AttemptRecord) → List AttemptRecord → List AttemptRecord
update_attempt n update [] = []
update_attempt n update (a ∷ rest) =
    if a.attempt_number == n then update a ∷ rest else a ∷ update_attempt n update rest

-- `_replace_attempt`; a job with no list of attempts gets none.
unfoldable pub replace_attempt : String → ℕ → (AttemptRecord → AttemptRecord) → Store → Store
replace_attempt job_id n update s = record s {
  attempts = elim (get job_id s.attempts) [
    | none ↦ s.attempts
    | some attempts ↦ put job_id (update_attempt n update attempts) s.attempts
  ];
}
