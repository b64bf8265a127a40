-- ===== src/Services.antt =====
-- The business services, backend/app/services.
pub mod Errors
pub mod Repository
pub mod Models
pub mod Defects
pub mod Store
pub mod Reads
pub mod Plans
pub mod Executions
pub mod Projects
pub mod Suites
pub mod Cases
pub mod Snapshots
pub mod Listing
pub mod Quality
pub mod Work
