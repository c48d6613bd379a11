-- ===== src/Queue/Built.antt =====
-- The checks of `__post_init__` (backend/yield_rca_api/store.py) on the records that the store
-- writes.
use autonomous_qwen_react.Prelude.{String, Bool, ◌≡◌, refl, Option, some, ok, ℤ, arith}
use autonomous_qwen_react.Json.{Json, validate_no_sensitive_fields}
use autonomous_qwen_react.Queue.Status.{TaskStatus}
use autonomous_qwen_react.Queue.Records.{
  Time, RcaState, QueueRecord, post_init, check_request, check_payload,
}
use autonomous_qwen_react.Queue.Workers.{claimed, beaten, committed}
use autonomous_qwen_react.Queue.Failures.{failed_record, recovered, lease_expired_error}
use autonomous_qwen_react.Queue.Clients.{cancel_record}

pub claimed-built :
    (r : QueueRecord) (w : String) (l : ℤ) (t : Time)
    → post_init r ≡ ok tt
    → post_init (claimed r w l t) ≡ ok tt
unfolding post_init check_request check_payload
claimed-built r w l t h = ground arith

pub beaten-built :
    (r : QueueRecord) (l : ℤ) (t : Time) → post_init r ≡ ok tt → post_init (beaten r l t) ≡ ok tt
unfolding post_init check_request
beaten-built r l t h = ground arith

pub committed-built :
    (r : QueueRecord) (st : RcaState) (c : Option Json) (t : Time)
    → post_init r ≡ ok tt
    → check_payload c ≡ ok tt
    → post_init (committed r st c t) ≡ ok tt
unfolding post_init check_request check_payload
committed-built r st c t h k = ground arith

pub failed-built :
    (r : QueueRecord) (next : TaskStatus) (st : Option RcaState) (x : Json) (c : Option Json)
    (d : ℤ) (t : Time)
    → post_init r ≡ ok tt
    → check_payload (some x) ≡ ok tt
    → check_payload c ≡ ok tt
    → post_init (failed_record r next st x c d t) ≡ ok tt
unfolding post_init check_request
failed-built r next st x c d t h k m = ground arith

lease_expired-clean : (next : TaskStatus) → check_payload (some (lease_expired_error next)) ≡ ok tt
unfolding check_payload validate_no_sensitive_fields
lease_expired-clean next = refl

pub recovered-built :
    (r : QueueRecord) (next : TaskStatus) (d : ℤ) (t : Time)
    → post_init r ≡ ok tt
    → post_init (recovered r next d t) ≡ ok tt
unfolding post_init check_request
recovered-built r next d t h = ground (arith, lease_expired-clean next)

pub cancelled-built :
    (r : QueueRecord) (next : TaskStatus) (b : Bool) (t : Time)
    → post_init r ≡ ok tt
    → post_init (cancel_record r next b t) ≡ ok tt
unfolding post_init check_request
cancelled-built r next b t h = ground arith
