-- ===== src/Automation/Devices/Manager.antt =====
-- The state of `InMemoryDeviceManager` and its internal steps, backend/app/automation/devices.py.
use qa_platform_learning.Common.Tests.{
  ℕ, ◌+◌, Bool, true, false, not, ◌&&◌, ◌||◌, String, Option, none, some, List, [], ◌∷◌, leb,
  nat_beq, is_some, if◌then◌else◌, nat_keyed, text_keyed, ◌==◌,
}
use qa_platform_learning.Common.Dict.{Dict, lookup, insert}
use qa_platform_learning.Common.Result.{ok, err, Action, pure, find, raise_if, ◌>>=◌, ◌>>◌}
use qa_platform_learning.Automation.Errors.{Error, not_found, lease_error, key_error}
use qa_platform_learning.Automation.Devices.Model.{
  DeviceStatus, offline, idle, maintenance, LeaseStatus, expired, is_maintenance, is_active, Device,
  Lease,
}

-- `str.casefold`, and SHA-256 as hexadecimal text.
pub record Host : Type 0 where
  pub casefold : String → String
  pub sha256 : String → String

-- `offline_after` is in microseconds.
pub record Manager : Type 0 where
  pub devices : Dict ℕ Device
  pub leases : Dict ℕ Lease
  pub names : Dict String ℕ
  pub offline_after : ℕ

-- `last_heartbeat_at + self._offline_after <= now`, true where there was no heartbeat.
abbrev pub is_silent : Option ℕ → ℕ → ℕ → Bool
is_silent none window now = true
is_silent (some beat) window now = leb (beat + window) now

-- `_effective_status`
unfoldable pub effective_status : ℕ → Device → ℕ → DeviceStatus
effective_status window d now =
    if is_maintenance d.status
    then maintenance
    else if not d.enabled || is_silent d.last_heartbeat_at window now
    then offline
    else if is_some d.active_lease_id
    then d.status
    else idle

-- `_available_status`
unfoldable pub available_status : ℕ → Device → ℕ → DeviceStatus
available_status window d now =
    if is_maintenance d.status
    then maintenance
    else if not d.enabled || is_silent d.last_heartbeat_at window now
    then offline
    else idle

-- `_effective_copy`
abbrev pub effective_copy : ℕ → Device → ℕ → Device
effective_copy window d now = record d { status = effective_status window d now }

-- The writes of mutated objects back into the dictionaries.
abbrev pub put_device : Device → Manager → Manager
put_device d m = record m { devices = insert d.id d m.devices }

abbrev pub put_lease : Lease → Manager → Manager
put_lease l m = record m { leases = insert l.id l m.leases }

-- `device.version += 1; device.updated_at = now`
abbrev pub touched : ℕ → Device → Device
touched now d = record d { version = d.version + 1; updated_at = now }

-- A device that loses its lease, in `release` and `_expire_locked`.
unfoldable pub freed : ℕ → ℕ → Device → Device
unfolding available_status
freed window now d =
    let u = record d { active_lease_id = none } in
    touched now (record u { status = available_status window u now })

-- A lease that ends, in `release` and `_expire_locked`.
abbrev pub ended : LeaseStatus → ℕ → Lease → Lease
ended s now l = record l { status = s; released_at = some now; version = l.version + 1 }

abbrev pub is_over : ℕ → Lease → Bool
is_over now l = is_active l.status && leb l.expires_at now

abbrev pub holds : Option ℕ → ℕ → Bool
holds none id = false
holds (some j) id = nat_beq j id

abbrev free_if_held : ℕ → Lease → Device → Manager → Manager
free_if_held now l d m =
    if holds d.active_lease_id l.id then put_device (freed m.offline_after now d) m else m

-- The body of the loop of `_expire_locked` on one lease: the lease is marked before its device is
-- looked up.
unfoldable pub expire_one : ℕ → ℕ → Action Manager Error (Option Lease)
unfolding freed
expire_one now k m = elim (lookup k m.leases) [
  | none ↦ (ok none, m)
  | some l ↦ elim (is_over now l) [
    | false ↦ (ok none, m)
    | true ↦ elim (lookup l.device_id m.devices) [
      | none ↦ (err key_error, put_lease (ended expired now l) m)
      | some d ↦ (
        ok (some (ended expired now l)),
        free_if_held now l d (put_lease (ended expired now l) m),
      )
    ]
  ]
]

abbrev pub add_some : Option Lease → List Lease → List Lease
add_some none ls = ls
add_some (some l) ls = l ∷ ls

-- The loop, over the ids of the leases in their order.
unfoldable pub expire_loop : ℕ → List ℕ → Action Manager Error (List Lease)
unfolding expire_one
expire_loop now [] = pure []
expire_loop now (k ∷ ks) = do
  changed ← expire_one now k
  rest ← expire_loop now ks
  pure (add_some changed rest)

abbrev pub keys : Dict ℕ Lease → List ℕ
keys [] = []
keys ((k, _) ∷ d) = k ∷ keys d

-- `_expire_locked`
unfoldable pub expire_locked : ℕ → Action Manager Error (List Lease)
unfolding expire_loop
expire_locked now m = expire_loop now (keys m.leases) m

-- `_require_device`
abbrev pub require_device : ℕ → Action Manager Error Device
require_device id = find (λ m. lookup id m.devices) not_found

module _ (host : Host) where
  unfoldable pub lease_holds : Lease → String → String → ℕ → Bool
  lease_holds l owner lease_token now =
      is_active l.status
      && l.owner == owner
      && not (leb l.expires_at now)
      && l.token_hash == host.sha256 lease_token

  -- `_require_lease`
  unfoldable pub require_lease : ℕ → String → String → ℕ → Action Manager Error (Lease × Device)
  unfolding lease_holds
  require_lease lease_id owner lease_token now = do
    l ← find (λ m. lookup lease_id m.leases) not_found
    raise_if (not (lease_holds l owner lease_token now)) lease_error
    d ← find (λ m. lookup l.device_id m.devices) key_error
    raise_if (not (holds d.active_lease_id l.id)) lease_error
    pure (l, d)
