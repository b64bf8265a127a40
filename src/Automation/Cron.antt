-- ===== src/Automation/Cron.antt =====
-- Cron expressions, backend/app/automation/cron.py.
pub mod Text
pub mod Field
pub mod Expression
pub mod Search
pub mod Firing
pub mod Feasibility
pub mod Bounds
mod Tests
