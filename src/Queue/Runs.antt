-- ===== src/Queue/Runs.antt =====
-- Calls of the store in any order, by any workers, at any times, and what holds after every one.
use autonomous_qwen_react.Prelude.{
  ℕ, String, Bool, ◌≡◌, refl, ap, Option, some, ok, Result, ◌>>=◌, get, ℤ, ok-injective,
}
use mathlib.Core.Path.{subst}
use autonomous_qwen_react.Json.{Json}
use autonomous_qwen_react.Queue.Status.{Error}
use autonomous_qwen_react.Queue.Records.{Time, RcaState, QueueRecord}
use autonomous_qwen_react.Queue.Store.{Store}
use autonomous_qwen_react.Queue.Workers.{claim_next, heartbeat, complete}
use autonomous_qwen_react.Queue.Failures.{fail_attempt, recover_stale_leases}
use autonomous_qwen_react.Queue.Clients.{
  enqueue, request_cancel, record_worker_heartbeat, record_progress_event,
}
use autonomous_qwen_react.Queue.Moves.{IsNew, SameJob}
use autonomous_qwen_react.Queue.Effects.Defs.{Effect, idle, quiet}
use autonomous_qwen_react.Queue.Effects.{
  claim_next-Effect, heartbeat-Effect, complete-Effect, fail_attempt-Effect, enqueue-Effect,
  request_cancel-Effect, record_progress_event-Effect,
}
use autonomous_qwen_react.Queue.Invariant.{Inv}

-- A call of a method, with its arguments and the instant that the clock shows; `recover_stale_leases`, which may write
-- many records, is a step of its own in `Reach`.
pub data Call : Type 0 where
  enqueue_call : QueueRecord → Time → Call
  claim_call : String → ℤ → Time → Call
  heartbeat_call : String → String → ℤ → Time → Call
  complete_call : String → String → RcaState → Option Json → Time → Call
  fail_call : String → String → Json → Bool → ℤ → Option RcaState → Option Json → Time → Call
  cancel_call : String → Time → Call
  progress_call : String → String → String → Json → Time → Call
  worker_call : String → ℕ → Json → Time → Call

abbrev pub store_of {ℓ} : {A : Type ℓ} → Result Error (Store × A) → Result Error Store
store_of r = r >>= λ x. ok x.0

-- The store after a call that returns.
unfoldable pub call : Store → Call → Result Error Store
call s (enqueue_call r t) = store_of (enqueue s r t)
call s (claim_call w l t) = store_of (claim_next s w l t)
call s (heartbeat_call w j l t) = store_of (heartbeat s w j l t)
call s (complete_call w j st c t) = store_of (complete s w j st c t)
call s (fail_call w j x b d st c t) = store_of (fail_attempt s w j x b d st c t)
call s (cancel_call j t) = store_of (request_cancel s j t)
call s (progress_call w j ty p t) = store_of (record_progress_event s w j ty p t)
call s (worker_call w n m t) = ok (record_worker_heartbeat s w n m t)

-- What the callers keep to: new jobs are queued ones, and a state handed in is about its job.
abbrev pub Admissible : Store → Call → Type 0
Admissible s (enqueue_call r t) = IsNew r
Admissible s (complete_call w j st c t) =
    (r : QueueRecord) → get j s.records ≡ some r → SameJob (some st) r
Admissible s (fail_call w j x b d st c t) =
    (r : QueueRecord) → get j s.records ≡ some r → SameJob st r
Admissible s _ = Unit

pub store_of-eq-ok {ℓ} :
    {A : Type ℓ} (r : Result Error (Store × A)) {s : Store}
    → store_of r ≡ ok s
    → (a : A) × (r ≡ ok (s, a))
store_of-eq-ok (ok (s, a)) e = (a, ap (λ y. ok (y, a)) (ok-injective e))
store_of-eq-ok (Result.raise x) e = cc

-- Every call that returns has one of the three effects.
pub call-Effect :
    (s : Store) (c : Call) {s' : Store} → Inv s → Admissible s c → call s c ≡ ok s' → Effect s s'
unfolding call
call-Effect s (enqueue_call r t) h a e = enqueue-Effect s r t a (store_of-eq-ok (enqueue s r t) e).1
call-Effect s (claim_call w l t) h a e =
    claim_next-Effect s w l t h.distinct (λ j r f. (h.stored j r f).0)
      (store_of-eq-ok (claim_next s w l t) e).1
call-Effect s (heartbeat_call w j l t) h a e =
    heartbeat-Effect s w j l t (store_of-eq-ok (heartbeat s w j l t) e).1
call-Effect s (complete_call w j st c t) h a e =
    complete-Effect s w j st c t a (store_of-eq-ok (complete s w j st c t) e).1
call-Effect s (fail_call w j x b d st c t) h a e =
    fail_attempt-Effect s w j x b d st c t a (store_of-eq-ok (fail_attempt s w j x b d st c t) e).1
call-Effect s (cancel_call j t) h a e =
    request_cancel-Effect s j t (store_of-eq-ok (request_cancel s j t) e).1
call-Effect s (progress_call w j ty p t) h a e =
    record_progress_event-Effect s w j ty p t
      (store_of-eq-ok (record_progress_event s w j ty p t) e).1
call-Effect s (worker_call w n m t) h a e =
    subst (Effect s) (ok-injective e)
      (unfold record_worker_heartbeat in idle refl refl refl (quiet refl))

-- The stores that calls lead to. A call that raises leaves the store as it was.
pub data Reach (s : Store) : Store → Type 0 where
  here : Reach s s
  called : {t u : Store} (c : Call) → Reach s t → Admissible t c → call t c ≡ ok u → Reach s u
  recovered :
      {t u : Store} (now : Time) (d : ℤ) {n : ℕ}
      → Reach s t
      → recover_stale_leases t now d ≡ ok (u, n)
      → Reach s u
