-- ===== src/Services/Plans.antt =====
-- Test plans, backend/app/services/test_plans.py.
pub mod Operations
pub mod Effects
