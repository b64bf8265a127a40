-- ===== src/Services/Executions.antt =====
-- Test executions, backend/app/services/executions.py.
pub mod Operations
pub mod Effects
pub mod Apart
