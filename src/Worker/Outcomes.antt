-- ===== src/Worker/Outcomes.antt =====
-- What `run_once` (backend/yield_rca_api/worker.py) makes of a claimed job, by how its workflow ended.
use mathlib.Core.Path.{subst}
use autonomous_qwen_react.Prelude.{
  ℕ, ◌<◌, ◌-◌, ◌^◌, String, Bool, true, false, ◌&&◌, ltb, none, some, Result, ok, raise, get, ◌∷◌,
  after, max_zero, ◌≡◌, refl, sym, ◌∙◌, ◌⊎◌, inl, inr, if◌then◌else◌, arith, Bool-cases,
}
use autonomous_qwen_react.Json.{Json, validate_no_sensitive_fields}
use autonomous_qwen_react.Queue.Status.{
  TaskStatus, running, cancel_requested, completed, cancelled, retry_wait, failed,
}
use autonomous_qwen_react.Queue.Records.{
  Time, RcaState, QueueRecord, with_status, status_of, check_payload,
}
use autonomous_qwen_react.Queue.Store.{Store}
use autonomous_qwen_react.Queue.Workers.{committed}
use autonomous_qwen_react.Queue.Failures.{failed_record, next_status}
use autonomous_qwen_react.Worker.Faults.{Raised, classify_worker_error}
use autonomous_qwen_react.Worker.Transient.{
  IsTransient, classify_worker_error-IsTransient, classify-clean,
}
use autonomous_qwen_react.Worker.Once.{
  WorkerSettings, times, retry_after, is_lease_lost, state_of, failed_checkpoint,
  completed_checkpoint, handle, finish,
}
use autonomous_qwen_react.Worker.Commits.{
  Owned, complete-running, complete-cancelling, fail_attempt-Commits,
}

-- Whether `run_once` gives a result up without a call of the store: a heartbeat failed, or the
-- workflow itself met the lost lease.
abbrev pub is_discarded : Bool → Result Raised RcaState → Bool
is_discarded lost (ok st) = lost
is_discarded lost (Result.raise e) = is_lease_lost e.error

-- An attempt that may be repeated: the exception is transient, and attempts are left.
abbrev pub IsRetried : Raised → QueueRecord → Type 0
IsRetried e r = IsTransient (e.error ∷ e.causes) × (r.attempt_count < r.max_attempts)

module _ (settings : WorkerSettings) where
  -- How the record `v` of the store, of the job that was claimed as `r`, ends as `v'`.
  pub data Outcome (r v : QueueRecord) (now : Time)
      : Result Raised RcaState → QueueRecord → Type 0 where
    completes :
        (st : RcaState) (v' : QueueRecord)
        → status_of v ≡ running
        → v'.state ≡ with_status completed st
        → v'.error ≡ none
        → v'.completed_at ≡ some now
        → Outcome r v now (ok st) v'
    cancels :
        (x : Result Raised RcaState) (v' : QueueRecord)
        → status_of v ≡ cancel_requested
        → status_of v' ≡ cancelled
        → v'.completed_at ≡ some now
        → Outcome r v now x v'
    retries :
        (e : Raised) (v' : QueueRecord)
        → status_of v ≡ running
        → IsRetried e v
        → status_of v' ≡ retry_wait
        → v'.next_attempt_at
          ≡ some
              (after now (max_zero (times settings.retry_base_seconds (2 ^ (r.attempt_count - 1)))))
        → v'.error ≡ some (classify_worker_error e).0
        → Outcome r v now (raise e) v'
    fails :
        (e : Raised) (v' : QueueRecord)
        → status_of v ≡ running
        → ¬ IsRetried e v
        → status_of v' ≡ failed
        → v'.completed_at ≡ some now
        → v'.error ≡ some (classify_worker_error e).0
        → Outcome r v now (raise e) v'

  next_status-running :
      (c : TaskStatus) (b : Bool) (v : QueueRecord)
      → c ≡ running
      → next_status c b v ≡ (if b && ltb v.attempt_count v.max_attempts then retry_wait else failed)
  unfolding next_status
  next_status-running c b v e = rw e refl

  next_status-cancelling :
      (c : TaskStatus) (b : Bool) (v : QueueRecord)
      → c ≡ cancel_requested
      → next_status c b v ≡ cancelled
  unfolding next_status
  next_status-cancelling c b v e = rw e refl

  -- The record that the failure of an attempt writes, by the status that it gets.
  abbrev fails_as : QueueRecord → QueueRecord → Time → Raised → TaskStatus → QueueRecord
  fails_as r v now e next =
      failed_record v next (state_of e.error) (classify_worker_error e).0 (some failed_checkpoint)
        (retry_after settings r) now

  abbrev may_retry : Raised → QueueRecord → Bool
  may_retry e v = (classify_worker_error e).1 && ltb v.attempt_count v.max_attempts

  may_retry-IsRetried : (e : Raised) (v : QueueRecord) → may_retry e v ≡ true → IsRetried e v
  may_retry-IsRetried e v h =
      ((classify_worker_error-IsTransient e).0.0 (ground (arith, h)), ground (arith, h))

  IsRetried-may_retry : (e : Raised) (v : QueueRecord) → IsRetried e v → may_retry e v ≡ true
  IsRetried-may_retry e v (t, l) = ground (arith, (classify_worker_error-IsTransient e).0.1 t, l)

  failed-Outcome :
      (r v : QueueRecord) (now : Time) (e : Raised)
      → (status_of v ≡ running) ⊎ (status_of v ≡ cancel_requested)
      → Outcome r v now
          (raise e)
          (fails_as r v now e (next_status (status_of v) (classify_worker_error e).1 v))
  unfolding retry_after
  failed-Outcome r v now e (inr c) =
      subst (λ n. Outcome r v now (raise e) (fails_as r v now e n))
        (sym (next_status-cancelling (status_of v) (classify_worker_error e).1 v c))
        (cancels (raise e) (fails_as r v now e cancelled) c refl refl)
  failed-Outcome r v now e (inl c) = elim (Bool-cases (may_retry e v)) [
    | inl h ↦
        subst (λ n. Outcome r v now (raise e) (fails_as r v now e n))
          (sym (next_status-running (status_of v) (classify_worker_error e).1 v c ∙ rw h refl))
          (retries e (fails_as r v now e retry_wait) c (may_retry-IsRetried e v h) refl refl refl)
    | inr h ↦
        subst (λ n. Outcome r v now (raise e) (fails_as r v now e n))
          (sym (next_status-running (status_of v) (classify_worker_error e).1 v c ∙ rw h refl))
          (fails e (fails_as r v now e failed) c (λ k. ground (arith, IsRetried-may_retry e v k, h))
            refl refl refl)
  ]

  module _ (worker_id : String) (evidence_count finding_count : RcaState → ℕ) where
    completed-clean :
        (st : RcaState)
        → check_payload
            (some (completed_checkpoint settings worker_id evidence_count finding_count st))
          ≡ ok tt
    unfolding check_payload validate_no_sensitive_fields
    completed-clean st = refl

    failed-clean : check_payload (some failed_checkpoint) ≡ ok tt
    unfolding check_payload validate_no_sensitive_fields
    failed-clean = refl

    -- A record under the job's identifier that has no lease.
    abbrev pub Released : Store → QueueRecord → QueueRecord → Type 0
    Released s r v' =
        (get r.state.job.job_id s.records ≡ some v')
        × (v'.lease_owner ≡ none)
        × (v'.lease_expires_at ≡ none)

    -- The end of a workflow, while this worker owns the record of the job in flight, and nothing told it
    -- otherwise: the record is released. A job that was asked to cancel is cancelled; a result is stored as
    -- completed; a transient exception with attempts left schedules the retry after the base
    -- span, doubled for every attempt before; any other exception fails the job.
    pub finish-Outcome :
        (s : Store) (r v : QueueRecord) (lost : Bool) (x : Result Raised RcaState) (now : Time)
        → Owned s worker_id r.state.job.job_id now v
        → (status_of v ≡ running) ⊎ (status_of v ≡ cancel_requested)
        → is_discarded lost x ≡ false
        → (v' : QueueRecord) × Released
            (finish settings worker_id evidence_count finding_count s r lost x now)
            r
            v'
          × Outcome r v now x v'
    unfolding finish handle
    finish-Outcome s r v lost (ok st) now o (inl c) d =
        let (s', e, g) =
          complete-running s worker_id r.state.job.job_id now v o st
            (completed_checkpoint settings worker_id evidence_count finding_count st) c
            (completed-clean st) in
        let v' =
          committed v (with_status completed st)
            (some (completed_checkpoint settings worker_id evidence_count finding_count st)) now in
        (v', (rw (d, e) g, refl, refl), completes st v' c refl refl refl)
    finish-Outcome s r v lost (ok st) now o (inr c) d =
        let (s', e, g) =
          complete-cancelling s worker_id r.state.job.job_id now v o st
            (completed_checkpoint settings worker_id evidence_count finding_count st) c
            (completed-clean st) in
        let v' =
          committed v (with_status cancelled v.state)
            (some (completed_checkpoint settings worker_id evidence_count finding_count st)) now in
        (v', (rw (d, e) g, refl, refl), cancels (ok st) v' c refl refl)
    finish-Outcome s r v lost (Result.raise e) now o c d =
        let (s', q, g) =
          fail_attempt-Commits s worker_id r.state.job.job_id now v o (classify_worker_error e).0
            (classify_worker_error e).1 (retry_after settings r) (state_of e.error)
            failed_checkpoint (classify-clean e) failed-clean in
        let v' = fails_as r v now e (next_status (status_of v) (classify_worker_error e).1 v) in
        (v', (rw (d, q) g, refl, refl), failed-Outcome r v now e c)
