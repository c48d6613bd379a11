-- ===== src/Queue/Effects.antt =====
-- What a method of the store (backend/yield_rca_api/store.py) does to the whole store.
mod Workers
mod Failures
mod Clients
pub mod Defs
pub use Workers.{
  claim_next-Effect, heartbeat-Effect, complete-Effect, leased-eq-ok, values-get, Keyed,
}
pub use Failures.{fail_attempt-Effect, recover_one-Effect}
pub use Clients.{enqueue-Effect, request_cancel-Effect, record_progress_event-Effect}
