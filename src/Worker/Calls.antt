-- ===== src/Worker/Calls.antt =====
-- `run_once` (backend/yield_rca_api/worker.py) as a run of calls of the job queue.
use autonomous_qwen_react.Prelude.{
  ℕ, String, Bool, true, false, Option, none, some, Result, ok, get, ◌≡◌, refl, sym, ap, ◌∙◌, inl,
  inr, arith, Bool-cases, at_most_zero, >>=-ok,
}
use autonomous_qwen_react.Json.{Json}
use autonomous_qwen_react.Queue.Status.{Error}
use autonomous_qwen_react.Queue.Records.{Time, RcaState, QueueRecord}
use autonomous_qwen_react.Queue.Store.{Store}
use autonomous_qwen_react.Queue.Workers.{claim_next, claimed, complete}
use autonomous_qwen_react.Queue.Failures.{fail_attempt}
use autonomous_qwen_react.Queue.Clients.{record_worker_heartbeat}
use autonomous_qwen_react.Queue.Moves.{SameJob}
use autonomous_qwen_react.Queue.Invariant.{Inv}
use autonomous_qwen_react.Queue.Runs.{
  Call, claim_call, complete_call, fail_call, worker_call, call, store_of, Admissible, Reach, here,
  called, recovered,
}
use autonomous_qwen_react.Queue.Claims.{claim_next-IsFirst}
use autonomous_qwen_react.Queue.Lifecycle.{Reach-Inv}
use autonomous_qwen_react.Worker.Faults.{Raised, classify_worker_error}
use autonomous_qwen_react.Worker.Once.{
  WorkerSettings, check_settings, retry_after, is_lease_lost, state_of, failed_checkpoint,
  completed_checkpoint, stored, handle, raised_by_store, after_complete, finish, after_claim,
  attempt, run_once,
}

Reach-trans : {s t u : Store} → Reach s t → Reach t u → Reach s u
Reach-trans h here = h
Reach-trans h (called c k a e) = called c (Reach-trans h k) a e
Reach-trans h (recovered now d k e) = recovered now d (Reach-trans h k) e

-- A call that the worker makes, whether it returns or raises.
stored-Reach {ℓ} :
    {A : Type ℓ} (t : Store) (c : Call) (x : Result Error (Store × A))
    → call t c ≡ store_of x
    → Admissible t c
    → Reach t (stored t x)
stored-Reach t c (ok (u, a)) e h = called c here h e
stored-Reach t c (Result.raise q) e h = here

pub heartbeat-Reach :
    (s : Store) (w : String) (n : ℕ) (m : Json) (t : Time)
    → Reach s (record_worker_heartbeat s w n m t)
unfolding call
heartbeat-Reach s w n m t = called (worker_call w n m t) here tt refl

-- The state of a result is about the job of the record.
abbrev pub IsAbout : QueueRecord → Result Raised RcaState → Type 0
IsAbout r (ok st) = SameJob (some st) r
IsAbout r (Result.raise e) = SameJob (state_of e.error) r

SameJob-stored :
    (s : Store) (r v : QueueRecord) (st : Option RcaState)
    → Inv s
    → get r.state.job.job_id s.records ≡ some v
    → SameJob st r
    → SameJob st v
SameJob-stored s r v none i g h = tt
SameJob-stored s r v (some st) i g h = h ∙ sym (i.stored r.state.job.job_id v g).0

pub positive-lease :
    (c : WorkerSettings) → check_settings c ≡ ok tt → at_most_zero c.lease_seconds ≡ false
unfolding check_settings
positive-lease c h = ground (arith, h)

module _ (settings : WorkerSettings) (worker_id : String) where
  handle-Reach :
      (s : Store) (r : QueueRecord) (e : Raised) (now : Time)
      → Inv s
      → SameJob (state_of e.error) r
      → Reach s (handle settings worker_id s r e now)
  unfolding handle call
  handle-Reach s r e now i h = elim (Bool-cases (is_lease_lost e.error)) [
    | inl l ↦ rw l here
    | inr l ↦ rw l (
        stored-Reach s
          (fail_call worker_id r.state.job.job_id (classify_worker_error e).0
            (classify_worker_error e).1 (retry_after settings r) (state_of e.error)
            (some failed_checkpoint) now)
          (fail_attempt s worker_id r.state.job.job_id (classify_worker_error e).0
            (classify_worker_error e).1 (retry_after settings r) (state_of e.error)
            (some failed_checkpoint) now)
          refl (λ v g. SameJob-stored s r v (state_of e.error) i g h))
  ]

no_state : (q : Error) (r : QueueRecord) → SameJob (state_of (raised_by_store q).error) r
no_state Error.lease_lost r = tt
no_state q r = tt

module _ (settings : WorkerSettings) (worker_id : String)
    (evidence_count finding_count : RcaState → ℕ) where
  after_complete-Reach :
      (s : Store) (r : QueueRecord) (now : Time) (c : Call) (x : Result Error (Store × QueueRecord))
      → Inv s
      → call s c ≡ store_of x
      → Admissible s c
      → Reach s (after_complete settings worker_id evidence_count finding_count s r now x)
  after_complete-Reach s r now c (ok (u, v)) i e h = called c here h e
  after_complete-Reach s r now c (Result.raise q) i e h =
      handle-Reach settings worker_id s r (raised_by_store q) now i (no_state q r)

  finish-Reach :
      (s : Store) (r : QueueRecord) (lost : Bool) (x : Result Raised RcaState) (now : Time)
      → Inv s
      → IsAbout r x
      → Reach s (finish settings worker_id evidence_count finding_count s r lost x now)
  unfolding finish call
  finish-Reach s r lost (Result.raise e) now i h = handle-Reach settings worker_id s r e now i h
  finish-Reach s r true (ok st) now i h = here
  finish-Reach s r false (ok st) now i h =
      after_complete-Reach s r now
        (complete_call worker_id r.state.job.job_id st
          (some (completed_checkpoint settings worker_id evidence_count finding_count st)) now)
        (complete s worker_id r.state.job.job_id st
          (some (completed_checkpoint settings worker_id evidence_count finding_count st)) now)
        i refl (λ v g. SameJob-stored s r v (some st) i g h)

module _ (settings : WorkerSettings) (worker_id : String)
    (evidence_count finding_count : RcaState → ℕ) (metadata : Json)
    (workflow : QueueRecord → Result Raised RcaState) (meanwhile : Store → Store × Bool) where
  abbrev claim_continued : Store → Option QueueRecord → Time → Result Error (Store × Bool)
  claim_continued =
      after_claim settings worker_id evidence_count finding_count metadata workflow meanwhile

  -- What follows the claim returns, and is a run of calls.
  continue-Reach :
      (s : Store) (claim : Option QueueRecord) (committed_at : Time)
      → Inv s
      → ((s : Store) → Reach s (meanwhile s).0)
      → ((r : QueueRecord) → IsAbout r (workflow r))
      → (s' : Store) × (worked : Bool) × (claim_continued s claim committed_at ≡ ok (s', worked))
        × Reach s s'
  unfolding after_claim
  continue-Reach s none t i h k = (s, false, refl, here)
  continue-Reach s (some r) t i h k =
      let s2 = (meanwhile s).0 in
      let ended =
        finish settings worker_id evidence_count finding_count s2 r (meanwhile s).1 (workflow r)
          t in
      let ends : Reach s2 ended =
        finish-Reach settings worker_id evidence_count finding_count s2 r (meanwhile s).1
          (workflow r) t (Reach-Inv i (h s)) (k r) in
      (
        record_worker_heartbeat ended worker_id 0 metadata t,
        true,
        refl,
        Reach-trans (h s) (Reach-trans ends (heartbeat-Reach ended worker_id 0 metadata t)),
      )

  claim_returns :
      (s : Store) (now : Time)
      → Inv s
      → at_most_zero settings.lease_seconds ≡ false
      → (s' : Store) × (claim : Option QueueRecord) × (claim_next s worker_id settings.lease_seconds
            now
          ≡ ok (s', claim))
  claim_returns s now i p = elim (claim_next-IsFirst s worker_id settings.lease_seconds now i p) [
    | inl (e, _) ↦ (s, none, e)
    | inr (r, (_, (s', e, _, _))) ↦ (s', some (claimed r worker_id settings.lease_seconds now), e)
  ]

  -- With settings that passed their check, a round of the worker returns, and is a run of calls of the
  -- queue, if what happens during the workflow is one, and the workflow's states are about the
  -- job that was claimed. So whatever holds after every run of the queue holds with workers in it.
  pub run_once-Reach :
      (s : Store) (claimed_at committed_at : Time)
      → check_settings settings ≡ ok tt
      → Inv s
      → ((s : Store) → Reach s (meanwhile s).0)
      → ((r : QueueRecord) → IsAbout r (workflow r))
      → (s' : Store) × (worked : Bool) × (run_once settings worker_id evidence_count finding_count
            metadata workflow meanwhile s claimed_at committed_at
          ≡ ok (s', worked))
        × Reach s s'
  unfolding run_once attempt call
  run_once-Reach s t0 t1 c i h k =
      let s0 = record_worker_heartbeat s worker_id 0 metadata t0 in
      let beat : Reach s s0 = heartbeat-Reach s worker_id 0 metadata t0 in
      let (s1, claim, q) = claim_returns s0 t0 (Reach-Inv i beat) (positive-lease settings c) in
      let claims : Reach s0 s1 =
        called (claim_call worker_id settings.lease_seconds t0) here tt (ap store_of q) in
      let begun = Reach-trans beat claims in
      let (s', worked, e, ends) = continue-Reach s1 claim t1 (Reach-Inv i begun) h k in
      (s', worked, >>=-ok _ q ∙ e, Reach-trans begun ends)
