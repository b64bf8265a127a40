-- ===== src/Automation/Tasks.antt =====
-- The in-memory task queue, backend/app/automation/tasks.py.
pub mod Model
pub mod State
pub mod Recovery
pub mod Enqueue
pub mod Claim
pub mod Settle
pub mod Cases
pub mod Invariant
pub mod Preserved
pub mod Evolution
pub mod History
pub mod Lasting
pub mod Claims
pub mod Idempotency
pub mod Leases
mod Tests
