-- ===== src/Worker/Served.antt =====
-- `run_once` (backend/yield_rca_api/worker.py) from its claim to its end.
use autonomous_qwen_react.Prelude.{ℕ, String, Bool, true, false, some, Result, ok, get, ◌≡◌, ◌⊎◌}
use autonomous_qwen_react.Json.{Json}
use autonomous_qwen_react.Queue.Status.{Error}
use autonomous_qwen_react.Queue.Records.{Time, RcaState, QueueRecord}
use autonomous_qwen_react.Queue.Store.{Store}
use autonomous_qwen_react.Queue.Workers.{claim_next, claimed}
use autonomous_qwen_react.Queue.Clients.{record_worker_heartbeat}
use autonomous_qwen_react.Queue.Leases.{HoldsLease}
use autonomous_qwen_react.Queue.Claims.{NoneDue, IsFirst, Claims}
use autonomous_qwen_react.Worker.Faults.{Raised}
use autonomous_qwen_react.Worker.Once.{WorkerSettings, run_once}
use autonomous_qwen_react.Worker.Outcomes.{is_discarded, Outcome, Released}

module _ (settings : WorkerSettings) (worker_id : String)
    (evidence_count finding_count : RcaState → ℕ) (metadata : Json) where
  -- How a round ends for the job that was claimed as `r`, of which the store `s` has the record `v` by then. If the
  -- worker still holds the lease, and neither a heartbeat nor the workflow told it otherwise, the record is released
  -- as the result of the workflow demands; if not, nothing is written but the worker's heartbeat.
  abbrev pub Ends :
      Store → (r v : QueueRecord) → Bool → Result Raised RcaState → Time → Store → Type 0
  Ends s r v lost x now s' =
      (HoldsLease v worker_id now
        × (is_discarded lost x ≡ false)
        × (v' : QueueRecord) × Released settings worker_id evidence_count finding_count s' r v'
        × Outcome settings r v now x v')
      ⊎ ((¬ HoldsLease v worker_id now ⊎ (is_discarded lost x ≡ true))
          × (s' ≡ record_worker_heartbeat s worker_id 0 metadata now))

module _ (settings : WorkerSettings) (worker_id : String)
    (evidence_count finding_count : RcaState → ℕ) (metadata : Json)
    (workflow : QueueRecord → Result Raised RcaState) (meanwhile : Store → Store × Bool) where
  abbrev one_round : Store → Time → Time → Result Error (Store × Bool)
  one_round = run_once settings worker_id evidence_count finding_count metadata workflow meanwhile

  -- The store that the claim begins with.
  abbrev begun : Store → Time → Store
  begun s t = record_worker_heartbeat s worker_id 0 metadata t

  abbrev taken : QueueRecord → Time → QueueRecord
  taken r t = claimed r worker_id settings.lease_seconds t

  -- A round without a job that is due.
  abbrev pub Idle : Store → Time → Time → Type 0
  Idle s t0 t1 = NoneDue s t0 × (one_round s t0 t1 ≡ ok (begun s t0, false))

  -- A round with the first job that is due.
  abbrev pub Serves : Store → Time → Time → Type 0
  Serves s t0 t1 =
      (r : QueueRecord) × IsFirst s t0 r
      × (s1 : Store) × (claim_next (begun s t0) worker_id settings.lease_seconds t0
          ≡ ok (s1, some (taken r t0)))
      × (v : QueueRecord) × (get r.state.job.job_id (meanwhile s1).0.records ≡ some v)
      × (s' : Store) × (one_round s t0 t1 ≡ ok (s', true))
      × Ends settings worker_id evidence_count finding_count metadata (meanwhile s1).0 (taken r t0)
          v (meanwhile s1).1 (workflow (taken r t0)) t1 s'
