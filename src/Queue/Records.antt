-- ===== src/Queue/Records.antt =====
-- The rows of the queue: `RCAJob` and `RCAState` of core/yield_rca_core/models.py as far as the
-- queue reads them, and the records of backend/yield_rca_api/store.py.
use autonomous_qwen_react.Prelude.{
  ℕ, String, Bool, true, not, ◌&&◌, ◌||◌, all, length, codes, leb, ltb, ◌==◌, Option, none, some,
  Result, ok, raise, ◌>>=◌, ◌>>◌, raise_if, >>=-eq-ok, ok-injective, ◌≡◌,
}
use autonomous_qwen_react.Json.{Json, validate_no_sensitive_fields}
use autonomous_qwen_react.Queue.Status.{TaskStatus, Error, value_error}

-- Instants and spans are counted in microseconds.
abbrev pub Time : Type 0
Time = ℕ

pub record RcaJob : Type 0 where
  pub job_id : String
  pub user_query : String
  pub investigation_mode : String
  pub source_lot_id : Option String
  pub product_id : Option String
  pub time_window : Json
  pub status : TaskStatus
  pub created_at : String
  pub schema_version : String

-- `rest` stands for the fields that the queue carries and never reads.
pub record RcaState : Type 0 where
  pub job : RcaJob
  pub execution_metadata : Json
  pub rest : Json

-- `replace(state, job=replace(state.job, status=...))`
abbrev pub with_status : TaskStatus → RcaState → RcaState
with_status s st = record st { job = record (st.job) { status = s } }

pub record QueueRecord : Type 0 where
  pub state : RcaState
  pub request : Json
  pub request_hash : String
  pub idempotency_key : Option String
  pub runtime_config : Json
  pub priority : ℕ
  pub attempt_count : ℕ
  pub max_attempts : ℕ
  pub next_attempt_at : Option Time
  pub lease_owner : Option String
  pub lease_expires_at : Option Time
  pub heartbeat_at : Option Time
  pub cancel_requested_at : Option Time
  pub started_at : Option Time
  pub completed_at : Option Time
  pub error : Option Json
  pub checkpoint : Option Json
  pub version : ℕ

abbrev pub status_of : QueueRecord → TaskStatus
status_of r = r.state.job.status

abbrev is_hex_digit : ℕ → Bool
is_hex_digit c = (leb b'0' c && leb c b'9') || (leb b'a' c && leb c b'f')

unfoldable pub is_sha256_hex : String → Bool
is_sha256_hex s = length (codes s) == 64 && all is_hex_digit (codes s)

unfoldable pub is_idempotency_key : Option String → Bool
is_idempotency_key none = true
is_idempotency_key (some k) = leb 1 (length (codes k)) && leb (length (codes k)) 200

-- A sensitive field raises `ValueError`.
abbrev pub no_sensitive_fields : Json → Result Error (Unit {0})
no_sensitive_fields j = elim (validate_no_sensitive_fields j) [
  | ok _ ↦ ok tt
  | raise _ ↦ raise value_error
]

-- `None` has no fields.
unfoldable pub check_payload : Option Json → Result Error (Unit {0})
check_payload none = ok tt
check_payload (some j) = no_sensitive_fields j

-- The checks of `__post_init__` on what no `replace` of the queue changes.
unfoldable pub check_request : QueueRecord → Result Error (Unit {0})
check_request r = do
  raise_if (not (is_sha256_hex r.request_hash)) value_error
  raise_if (not (is_idempotency_key r.idempotency_key)) value_error
  raise_if (ltb r.max_attempts 1) value_error
  check_payload (some r.request)
  check_payload (some r.runtime_config)

-- `RCAJobQueueRecord.__post_init__`; the counters are natural numbers here. Every check raises the
-- same `ValueError`, so their order does not show.
unfoldable pub post_init : QueueRecord → Result Error (Unit {0})
post_init r = do
  check_request r
  raise_if (ltb r.version 1) value_error
  check_payload r.error
  check_payload r.checkpoint

-- Building a record runs `__post_init__`, in `replace` too.
abbrev pub checked : QueueRecord → Result Error QueueRecord
checked r = do post_init r; ok r

-- A record that was built passed the checks, and is what was asked for.
pub checked-bind {ℓ} :
    {B : Type ℓ} (r : QueueRecord) (f : QueueRecord → Result Error B) {b : B}
    → (checked r >>= f) ≡ ok b
    → (post_init r ≡ ok tt) × (f r ≡ ok b)
checked-bind r f h =
    let (u, p, q) = >>=-eq-ok (checked r) f h in
    let (v, p', q') = >>=-eq-ok (post_init r) (λ _. ok r) p in (p', rw (ok-injective q') q)

pub record AttemptRecord : Type 0 where
  pub job_id : String
  pub attempt_number : ℕ
  pub worker_id : String
  pub status : String
  pub started_at : Time
  pub completed_at : Option Time
  pub error : Option Json
  pub checkpoint : Option Json

pub record EventRecord : Type 0 where
  pub job_id : String
  pub sequence : ℕ
  pub event_type : String
  pub payload : Json
  pub created_at : Time

pub record WorkerHeartbeat : Type 0 where
  pub started_at : Time
  pub last_seen_at : Time
  pub active_lease_count : ℕ
  pub metadata : Json
