-- ===== src/Queue/Moves.antt =====
-- The life of one job, apart from the store: what one method may do to one record. The theorems
-- here are about this relation; Queue/Effects.antt relates the methods to it.
use autonomous_qwen_react.Prelude.{
  String, Bool, true, false, ◌≤◌, ◌<◌, ◌≡◌, [], ◌∷◌, Option, none, some, ok, ℤ, arith,
}
use autonomous_qwen_react.Json.{Json}
use autonomous_qwen_react.Queue.Status.{
  TaskStatus, queued, running, cancel_requested, completed, cancelled, is_one_of,
  validate_job_transition,
}
use autonomous_qwen_react.Queue.Records.{
  Time, RcaState, QueueRecord, with_status, status_of, post_init, check_request,
}
use autonomous_qwen_react.Queue.Store.{owns_active_lease}
use autonomous_qwen_react.Queue.Workers.{claimed, beaten, committed, is_candidate, may_beat}
use autonomous_qwen_react.Queue.Failures.{next_status, failed_record, recovered, is_stale}
use autonomous_qwen_react.Queue.Clients.{is_immediate, cancel_record}

-- A state that a worker hands in is about the job that it has leased.
abbrev pub SameJob : Option RcaState → QueueRecord → Type 0
SameJob none r = Unit
SameJob (some st) r = st.job.job_id ≡ r.state.job.job_id

pub data Move (r r' : QueueRecord) : Type 0 where
  claim :
      (w : String) (l : ℤ) (t : Time) → is_candidate t r ≡ true → r' ≡ claimed r w l t → Move r r'
  beat : (w : String) (l : ℤ) (t : Time) → may_beat r w t ≡ true → r' ≡ beaten r l t → Move r r'
  finish :
      (w : String) (st : RcaState) (c : Option Json) (t : Time)
      → owns_active_lease r w t ≡ true
      → status_of r ≡ running
      → SameJob (some st) r
      → r' ≡ committed r (with_status completed st) c t
      → Move r r'
  discard :
      (w : String) (c : Option Json) (t : Time)
      → owns_active_lease r w t ≡ true
      → status_of r ≡ cancel_requested
      → r' ≡ committed r (with_status cancelled r.state) c t
      → Move r r'
  fail :
      (w : String) (b : Bool) (st : Option RcaState) (e : Json) (c : Option Json) (d : ℤ) (t : Time)
      → owns_active_lease r w t ≡ true
      → SameJob st r
      → r' ≡ failed_record r (next_status (status_of r) b r) st e c d t
      → Move r r'
  recover :
      (d : ℤ) (t : Time)
      → is_stale t r ≡ true
      → r' ≡ recovered r (next_status (status_of r) true r) d t
      → Move r r'
  cancel :
      (t : Time)
      → is_immediate (status_of r) ≡ true
      → r' ≡ cancel_record r cancelled true t
      → Move r r'
  ask_cancel :
      (t : Time)
      → is_one_of (status_of r) (running ∷ cancel_requested ∷ []) ≡ true
      → r' ≡ cancel_record r cancel_requested false t
      → Move r r'

abbrev pub is_in_flight : TaskStatus → Bool
is_in_flight s = is_one_of s (running ∷ cancel_requested ∷ [])

-- What holds of a stored record between two calls.
pub record IsSound (r : QueueRecord) : Type 0 where
  pub bounded : r.attempt_count ≤ r.max_attempts
  pub room : is_immediate (status_of r) ≡ true → r.attempt_count < r.max_attempts
  pub free : is_in_flight (status_of r) ≡ false → r.lease_owner ≡ none

-- Every move of a sound record follows the transition table.
pub Move-allowed :
    {r r' : QueueRecord}
    → IsSound r
    → Move r r'
    → validate_job_transition (status_of r) (status_of r') ≡ ok tt
unfolding validate_job_transition is_candidate may_beat is_stale next_status owns_active_lease
Move-allowed s (claim w l t c e) = ground arith
Move-allowed s (beat w l t c e) = ground arith
Move-allowed s (finish w st c t o u j e) = ground arith
Move-allowed s (discard w c t o u e) = ground arith
Move-allowed {r} s (fail w b st x c d t o j e) = ground arith
Move-allowed s (recover d t c e) = ground arith
Move-allowed s (cancel t c e) = ground arith
Move-allowed s (ask_cancel t c e) = ground arith

-- Every move of a sound record makes a sound record.
pub Move-IsSound : {r r' : QueueRecord} → IsSound r → Move r r' → IsSound r'
unfolding is_candidate may_beat is_stale next_status owns_active_lease
Move-IsSound s (claim w l t c e) = ground arith
Move-IsSound s (beat w l t c e) = ground arith
Move-IsSound s (finish w st c t o u j e) = ground arith
Move-IsSound s (discard w c t o u e) = ground arith
Move-IsSound s (fail w b st x c d t o j e) = ground arith
Move-IsSound s (recover d t c e) = ground arith
Move-IsSound s (cancel t c e) = ground arith
Move-IsSound s (ask_cancel t c e) = ground arith

-- A job as the API makes it: queued, with no attempt and no lease.
pub record IsNew (r : QueueRecord) : Type 0 where
  pub built : post_init r ≡ ok tt
  pub waiting : status_of r ≡ queued
  pub unattempted : r.attempt_count ≡ 0
  pub unleased : r.lease_owner ≡ none

pub IsNew-IsSound : {r : QueueRecord} → IsNew r → IsSound r
unfolding post_init check_request
IsNew-IsSound n = ground arith

-- No move changes what identifies the job.
pub Move-job_id : {r r' : QueueRecord} → Move r r' → r'.state.job.job_id ≡ r.state.job.job_id
Move-job_id (claim w l t c e) = ground arith
Move-job_id (beat w l t c e) = ground arith
Move-job_id (finish w st c t o u j e) = ground arith
Move-job_id (discard w c t o u e) = ground arith
Move-job_id (fail w b none x c d t o j e) = ground arith
Move-job_id (fail w b (some st) x c d t o j e) = ground arith
Move-job_id (recover d t c e) = ground arith
Move-job_id (cancel t c e) = ground arith
Move-job_id (ask_cancel t c e) = ground arith

pub Move-idempotency_key : {r r' : QueueRecord} → Move r r' → r'.idempotency_key ≡ r.idempotency_key
Move-idempotency_key (claim w l t c e) = ground arith
Move-idempotency_key (beat w l t c e) = ground arith
Move-idempotency_key (finish w st c t o u j e) = ground arith
Move-idempotency_key (discard w c t o u e) = ground arith
Move-idempotency_key (fail w b st x c d t o j e) = ground arith
Move-idempotency_key (recover d t c e) = ground arith
Move-idempotency_key (cancel t c e) = ground arith
Move-idempotency_key (ask_cancel t c e) = ground arith
