-- ===== src/Automation/Devices/Maintenance.antt =====
-- What the end of maintenance does to a device, backend/app/automation/devices.py.
use qa_platform_learning.Common.Tests.{
  ℕ, ◌≡◌, refl, sym, ap, ◌∙◌, true, false, Option, some, [], nat_keyed, text_keyed, arith,
}
use qa_platform_learning.Common.Dict.{lookup, insert, lookup-insert_self}
use qa_platform_learning.Common.Time.{DateTime}
use qa_platform_learning.Common.Result.{ok, ◌>>=◌}
use qa_platform_learning.Automation.Errors.{resolve}
use qa_platform_learning.Automation.Devices.Model.{is_maintenance, Device}
use qa_platform_learning.Automation.Devices.Manager.{
  Manager, effective_status, available_status, effective_copy, put_device, is_silent,
}
use qa_platform_learning.Automation.Devices.Operations.{is_candidate, maintained, set_maintenance}

set_maintenance_off :
    (id : ℕ) (now : Option DateTime) (clock current : ℕ) (m : Manager) (d : Device)
    → resolve now clock ≡ ok current
    → lookup id m.devices ≡ some d
    → set_maintenance id false now clock m ≡ (
      ok (effective_copy m.offline_after (maintained m.offline_after current false d) current),
      put_device (maintained m.offline_after current false d) m,
    )
unfolding set_maintenance ◌>>=◌
set_maintenance_off id now clock current m d time at = rw time (rw at refl)

maintained_off-maintenance :
    (window current : ℕ) (d : Device)
    → is_maintenance d.status ≡ true
    → is_maintenance (maintained window current false d).status ≡ true
      × is_maintenance (effective_status window (maintained window current false d) current) ≡ true
unfolding maintained available_status effective_status
maintained_off-maintenance window current d h = ground arith

-- The device `id` is there, and in maintenance.
abbrev pub InMaintenance : ℕ → Manager → Type 0
InMaintenance id m =
    (d : Device) × (lookup id m.devices ≡ some d) × (is_maintenance d.status ≡ true)

-- Maintenance does not end: turning it off for a device in maintenance returns a device in
-- maintenance and stores it so, whatever its heartbeats, at every time.
pub maintenance_stays :
    (id : ℕ) (now : Option DateTime) (clock current : ℕ) (m : Manager) (d : Device)
    → resolve now clock ≡ ok current
    → lookup id m.devices ≡ some d
    → d.id ≡ id
    → is_maintenance d.status ≡ true
    → (e : Device) × ((set_maintenance id false now clock m).0 ≡ ok e)
      × (is_maintenance e.status ≡ true)
      × InMaintenance id (set_maintenance id false now clock m).1
unfolding maintained
maintenance_stays id now clock current m d time at own h =
    let done = maintained m.offline_after current false d in
    let (stored, shown) = maintained_off-maintenance m.offline_after current d h in
    (
      effective_copy m.offline_after done current,
      ap (λ p. p.0) (set_maintenance_off id now clock current m d time at),
      shown,
      rw (set_maintenance_off id now clock current m d time at) (done, found done, stored),
    )
  where
    found : (e : Device) → lookup id (insert d.id e m.devices) ≡ some e
    found e =
        ap (λ (i : ℕ). lookup i (insert d.id e m.devices)) (sym own)
        ∙ lookup-insert_self d.id e m.devices

leased_again :
    (window current : ℕ) (d : Device)
    → d.enabled ≡ true
    → is_maintenance d.status ≡ false
    → is_silent d.last_heartbeat_at window current ≡ false
    → is_candidate [] window current (maintained window current false d) ≡ true
unfolding is_candidate maintained available_status effective_status
leased_again window current d on up alive = ground arith

-- Turning maintenance off for a device that holds a lease, is enabled, not in maintenance and not
-- silent leaves the device with its lease, and a device that may be leased at once again.
pub maintenance_frees_leased :
    (id lease : ℕ) (now : Option DateTime) (clock current : ℕ) (m : Manager) (d : Device)
    → resolve now clock ≡ ok current
    → lookup id m.devices ≡ some d
    → d.id ≡ id
    → d.active_lease_id ≡ some lease
    → d.enabled ≡ true
    → is_maintenance d.status ≡ false
    → is_silent d.last_heartbeat_at m.offline_after current ≡ false
    → (e : Device) × (lookup id (set_maintenance id false now clock m).1.devices ≡ some e)
      × (e.active_lease_id ≡ some lease)
      × (is_candidate [] m.offline_after current e ≡ true)
unfolding maintained
maintenance_frees_leased id lease now clock current m d time at own holds on up alive =
    let e = maintained m.offline_after current false d in
    (
      e,
      rw (set_maintenance_off id now clock current m d time at) (
          ap (λ (i : ℕ). lookup i (insert d.id e m.devices)) (sym own)
          ∙ lookup-insert_self d.id e m.devices),
      holds,
      leased_again m.offline_after current d on up alive,
    )
