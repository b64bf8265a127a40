-- ===== src/Services/Cases.antt =====
-- Test cases, backend/app/services/test_cases.py.
pub mod Operations
pub mod Effects
