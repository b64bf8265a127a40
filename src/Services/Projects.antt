-- ===== src/Services/Projects.antt =====
-- Projects, backend/app/services/projects.py.
pub mod Operations
pub mod Effects
