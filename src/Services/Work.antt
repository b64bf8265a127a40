-- ===== src/Services/Work.antt =====
-- What the services keep true of plans, executions, projects and defects together.
pub mod Lockstep
pub mod Requests
pub mod InStep
pub mod Kept
pub mod Support
pub mod Open
pub mod Supported
pub mod Forests
mod Tests
