-- ===== src/Worker/Commits.antt =====
-- The commits of `run_once` (backend/yield_rca_api/worker.py) on a record that the worker owns.
use autonomous_qwen_react.Prelude.{
  String, Bool, true, Option, some, Result, ok, get, get-put_self, ℤ, ◌≡◌, refl, ap, ◌∙◌, >>=-ok,
}
use autonomous_qwen_react.Json.{Json}
use autonomous_qwen_react.Queue.Status.{
  TaskStatus, Error, running, cancel_requested, completed, cancelled,
}
use autonomous_qwen_react.Queue.Records.{
  Time, RcaState, QueueRecord, with_status, status_of, post_init, check_payload, checked,
}
use autonomous_qwen_react.Queue.Store.{
  Store, owns_active_lease, append_event, put_record, replace_attempt,
}
use autonomous_qwen_react.Queue.Workers.{leased, completion, complete, committed, settle}
use autonomous_qwen_react.Queue.Failures.{fail_attempt, failed_record, next_status}
use autonomous_qwen_react.Queue.Built.{committed-built, failed-built}

-- A record that the worker owns at an instant.
pub record Owned (s : Store) (worker_id job_id : String) (now : Time) (r : QueueRecord)
    : Type 0 where
  pub found : get job_id s.records ≡ some r
  pub owned : owns_active_lease r worker_id now ≡ true
  pub built : post_init r ≡ ok tt

module _ (s : Store) (w j : String) (t : Time) (r : QueueRecord) (o : Owned s w j t r) where
  leased-owned : leased s w j t ≡ ok r
  unfolding leased
  leased-owned = rw (o.found, leased, o.owned) refl

  -- A call that wrote this record and returned it.
  abbrev pub Commits : Result Error (Store × QueueRecord) → QueueRecord → Type 0
  Commits x r' = (s' : Store) × (x ≡ ok (s', r')) × (get j s'.records ≡ some r')

  checked-ok : (r' : QueueRecord) → post_init r' ≡ ok tt → checked r' ≡ ok r'
  checked-ok r' h = rw h refl

  complete-Commits :
      (st : RcaState) (c : Json) (final : TaskStatus) (final_state : RcaState) (event : String)
      → completion (status_of r) r.state st ≡ ok (final, final_state, event)
      → check_payload (some c) ≡ ok tt
      → Commits (complete s w j st (some c) t) (committed r final_state (some c) t)
  unfolding complete settle append_event put_record replace_attempt
  complete-Commits st c final final_state event e k = (
    _,
    >>=-ok _ leased-owned
        ∙ >>=-ok _ e
        ∙ >>=-ok _ (checked-ok _ (committed-built r final_state (some c) t o.built k)),
    get-put_self j (committed r final_state (some c) t) s.records,
  )

  pub complete-running :
      (st : RcaState) (c : Json)
      → status_of r ≡ running
      → check_payload (some c) ≡ ok tt
      → Commits (complete s w j st (some c) t) (committed r (with_status completed st) (some c) t)
  unfolding completion
  complete-running st c e k =
      complete-Commits st c completed (with_status completed st) "job_completed"
        (ap (λ x. completion x r.state st) e) k

  pub complete-cancelling :
      (st : RcaState) (c : Json)
      → status_of r ≡ cancel_requested
      → check_payload (some c) ≡ ok tt
      → Commits
          (complete s w j st (some c) t)
          (committed r (with_status cancelled r.state) (some c) t)
  unfolding completion
  complete-cancelling st c e k =
      complete-Commits st c cancelled (with_status cancelled r.state) "job_cancelled"
        (ap (λ x. completion x r.state st) e) k

  pub fail_attempt-Commits :
      (x : Json) (b : Bool) (d : ℤ) (st : Option RcaState) (c : Json)
      → check_payload (some x) ≡ ok tt
      → check_payload (some c) ≡ ok tt
      → Commits
          (fail_attempt s w j x b d st (some c) t)
          (failed_record r (next_status (status_of r) b r) st x (some c) d t)
  unfolding fail_attempt settle append_event put_record replace_attempt
  fail_attempt-Commits x b d st c h k =
      let next = next_status (status_of r) b r in
      (
        _,
        >>=-ok _ leased-owned
            ∙ >>=-ok _ (checked-ok _ (failed-built r next st x (some c) d t o.built h k)),
        get-put_self j (failed_record r next st x (some c) d t) s.records,
      )
