-- ===== src/Services/Defects.antt =====
-- The defect service, backend/app/services/defects.py.
pub mod Model
pub mod Operations
pub mod Creation
pub mod Lifecycle
pub mod Edits
pub mod Effects
mod Tests
