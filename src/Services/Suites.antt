-- ===== src/Services/Suites.antt =====
-- Test suites, backend/app/services/test_suites.py.
pub mod Operations
pub mod Effects
pub mod Forest
pub mod Walk
mod Tests
