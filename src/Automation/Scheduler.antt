-- ===== src/Automation/Scheduler.antt =====
-- The scheduler, backend/app/automation/scheduler.py.
pub mod Model
pub mod Policy
pub mod Operations
pub mod Due
pub mod Kept
pub mod Settled
pub mod InMemory
mod Tests
