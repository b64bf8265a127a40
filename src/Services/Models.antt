-- ===== src/Services/Models.antt =====
-- The domain models, backend/app/domain/models.py, but for those of defects.
pub mod Status
pub mod Records
pub mod Audit
