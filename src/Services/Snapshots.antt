-- ===== src/Services/Snapshots.antt =====
-- Snapshots of test cases, backend/app/services/test_case_snapshots.py.
pub mod Operations
pub mod Scope
pub mod Contents
pub mod Creation
mod Tests
