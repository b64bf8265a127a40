-- ===== src/Automation/Devices.antt =====
-- The device manager, backend/app/automation/devices.py.
pub mod Model
pub mod Manager
pub mod Operations
pub mod Invariant
pub mod Changes
pub mod Preserved
pub mod Leasing
pub mod History
pub mod Maintenance
pub mod Unheard
pub mod Foreign
pub mod Expiry
pub mod Access
mod Tests
