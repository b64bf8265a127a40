-- ===== src/Automation/Devices/Model.antt =====
-- The device part of backend/app/automation/models.py. A set of capabilities is a list that names
-- each of them once.
use qa_platform_learning.Common.Tests.{
  ℕ, Bool, true, false, ◌&&◌, String, Option, leb, text_between, List,
}
use qa_platform_learning.Common.Lists.{length, all}

pub data DeviceStatus : Type 0 where
  offline idle reserved busy maintenance : DeviceStatus

pub data LeaseStatus : Type 0 where
  active released expired : LeaseStatus

abbrev pub is_maintenance : DeviceStatus → Bool
is_maintenance maintenance = true
is_maintenance _ = false

abbrev pub is_idle : DeviceStatus → Bool
is_idle idle = true
is_idle _ = false

abbrev pub is_active : LeaseStatus → Bool
is_active active = true
is_active _ = false

pub record Device : Type 0 where
  pub id : ℕ
  pub name : String
  pub kind : String
  pub platform : String
  pub capabilities : List String
  pub agent_id : String
  pub enabled : Bool
  pub status : DeviceStatus
  pub last_heartbeat_at : Option ℕ
  pub active_lease_id : Option ℕ
  pub version : ℕ
  pub created_at : ℕ
  pub updated_at : ℕ

-- `DeviceLease`
pub record Lease : Type 0 where
  pub id : ℕ
  pub device_id : ℕ
  pub task_id : String
  pub owner : String
  pub token_hash : String
  pub status : LeaseStatus
  pub acquired_at : ℕ
  pub expires_at : ℕ
  pub released_at : Option ℕ
  pub version : ℕ

-- `ClaimedDeviceLease`
pub record Claimed : Type 0 where
  pub device : Device
  pub lease : Lease
  pub lease_token : String

-- `bounded_capabilities`
abbrev pub bounded_capabilities : List String → Bool
bounded_capabilities cs = leb (length cs) 100 && all (text_between 1 100) cs

-- The constraints of the fields that `register` fills.
unfoldable pub model_accepts : String → String → String → List String → String → Bool
model_accepts name kind platform capabilities agent_id =
    text_between 1 150 name
    && text_between 1 50 kind
    && text_between 1 100 platform
    && bounded_capabilities capabilities
    && text_between 1 200 agent_id
