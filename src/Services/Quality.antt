-- ===== src/Services/Quality.antt =====
-- The quality figures, backend/app/services/quality.py.
pub mod Figures
pub mod Summary
pub mod Trends
pub mod Buckets
pub mod Totals
pub mod Rates
pub mod Completion
mod Tests
