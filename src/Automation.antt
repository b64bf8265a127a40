-- ===== src/Automation.antt =====
-- The automation package, backend/app/automation.
pub mod Errors
pub mod Retry
pub mod Tasks
pub mod Cron
pub mod Devices
pub mod Scheduler
