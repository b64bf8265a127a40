-- ===== src/Automation/Devices/Invariant.antt =====
-- The invariant of the device manager, and the changes of its dictionaries that keep it
-- (backend/app/automation/devices.py).
use qa_platform_learning.Common.Tests.{
  nat_keyed, ℕ, ◌≡◌, refl, sym, ap, ◌∙◌, inl, inr, Bool, true, false, some, nat_beq, nat_beq_iff,
  is_some, Bool-cases,
}
use qa_platform_learning.Common.Dict.{
  Dict, Distinct, Distinct-insert, lookup, insert, lookup-insert,
}
use qa_platform_learning.Common.Lookup.{found_after, present_after, same_value}
use qa_platform_learning.Automation.Devices.Model.{
  DeviceStatus, reserved, busy, is_active, Device, Lease,
}
use qa_platform_learning.Automation.Devices.Manager.{Manager, put_device, put_lease}
use mathlib.Core.Path.{subst}

abbrev pub is_working : DeviceStatus → Bool
is_working reserved = true
is_working busy = true
is_working _ = false

-- The device `k` is there and names the lease `j` as its own.
abbrev pub Names : Dict ℕ Device → ℕ → ℕ → Type 0
Names ds k j = (d : Device) × (lookup k ds ≡ some d) × (d.active_lease_id ≡ some j)

-- The lease `j` is there, active, and on the device `k`.
abbrev pub Rules : Dict ℕ Lease → ℕ → ℕ → Type 0
Rules ls j k =
    (l : Lease) × (lookup j ls ≡ some l) × (is_active l.status ≡ true) × (l.device_id ≡ k)

-- Devices and leases stand under their ids; an active lease is the one that its device names, and a
-- device names active leases on itself only; every lease has its device; and a device is reserved
-- or busy exactly while it names a lease. No device id stands twice.
pub record IsValid (m : Manager) : Type 0 where
  pub device_id : (k : ℕ) (d : Device) → lookup k m.devices ≡ some d → d.id ≡ k
  pub lease_id : (j : ℕ) (l : Lease) → lookup j m.leases ≡ some l → l.id ≡ j
  pub named :
      (j : ℕ) (l : Lease)
      → lookup j m.leases ≡ some l
      → is_active l.status ≡ true
      → Names m.devices l.device_id j
  pub ruled :
      (k j : ℕ) (d : Device)
      → lookup k m.devices ≡ some d
      → d.active_lease_id ≡ some j
      → Rules m.leases j k
  pub placed :
      (j : ℕ) (l : Lease)
      → lookup j m.leases ≡ some l
      → (d : Device) × (lookup l.device_id m.devices ≡ some d)
  pub working :
      (k : ℕ) (d : Device)
      → lookup k m.devices ≡ some d
      → is_some d.active_lease_id ≡ is_working d.status
  pub distinct : Distinct m.devices

-- A change to one device that keeps its lease keeps who names what.
pub Names-after :
    (ds : Dict ℕ Device) (d e : Device) (k j : ℕ)
    → lookup e.id ds ≡ some d
    → e.active_lease_id ≡ d.active_lease_id
    → Names ds k j
    → Names (insert e.id e ds) k j
Names-after ds d e k j at same (x, found, names) = elim (Bool-cases (nat_beq e.id k)) [
  | inl here ↦ (
    e,
    rw (lookup-insert e.id k e ds) (rw here refl),
    same
        ∙ ap (λ (y : Device). y.active_lease_id)
            (same_value e.id k d x ds ((nat_beq_iff e.id k).0 here) at found)
        ∙ names,
  )
  | inr there ↦ (x, rw (lookup-insert e.id k e ds) (rw there found), names)
]

-- A device changes, and names the same lease as before.
pub keep_device-IsValid :
    (m : Manager) (d e : Device)
    → IsValid m
    → lookup e.id m.devices ≡ some d
    → e.active_lease_id ≡ d.active_lease_id
    → is_some e.active_lease_id ≡ is_working e.status
    → IsValid (put_device e m)
keep_device-IsValid m d e v at same works = record {
  device_id = λ k x h. elim (found_after e.id k e x m.devices h) [
    | inl (ke, ex) ↦ ap (λ (y : Device). y.id) (sym ex) ∙ ke
    | inr (ne, old) ↦ v.device_id k x old
  ];
  lease_id = v.lease_id;
  named = λ j l h act. Names-after m.devices d e l.device_id j at same (v.named j l h act);
  ruled = λ k j x h names. elim (found_after e.id k e x m.devices h) [
    | inl (ke, ex) ↦
        subst (Rules m.leases j) ke
          (v.ruled e.id j d at (sym same ∙ ap (λ (y : Device). y.active_lease_id) ex ∙ names))
    | inr (ne, old) ↦ v.ruled k j x old names
  ];
  placed = λ j l h. present_after e.id l.device_id e m.devices (v.placed j l h);
  working = λ k x h. elim (found_after e.id k e x m.devices h) [
    | inl (ke, ex) ↦
        subst (λ (y : Device). is_some y.active_lease_id ≡ is_working y.status) ex works
    | inr (ne, old) ↦ v.working k x old
  ];
  distinct = Distinct-insert e.id e m.devices v.distinct;
}

-- A lease changes, and stays on its device as active or as ended as it was.
pub keep_lease-IsValid :
    (m : Manager) (l n : Lease)
    → IsValid m
    → lookup n.id m.leases ≡ some l
    → n.device_id ≡ l.device_id
    → n.status ≡ l.status
    → IsValid (put_lease n m)
keep_lease-IsValid m l n v at place same = record {
  device_id = v.device_id;
  lease_id = λ j x h. elim (found_after n.id j n x m.leases h) [
    | inl (nj, e) ↦ ap (λ (y : Lease). y.id) (sym e) ∙ nj
    | inr (ne, old) ↦ v.lease_id j x old
  ];
  named = λ j x h act. elim (found_after n.id j n x m.leases h) [
    | inl (nj, e) ↦
        subst (λ (y : Lease). Names m.devices y.device_id j) e
          (rw place (
            subst (Names m.devices l.device_id) nj
              (v.named n.id l at (rw (← same) (ap (λ (y : Lease). is_active y.status) e ∙ act)))))
    | inr (ne, old) ↦ v.named j x old act
  ];
  ruled = λ k j d h names.
      let (x, found, act, on) = v.ruled k j d h names in
      elim (Bool-cases (nat_beq n.id j)) [
        | inl here ↦
            let e = same_value n.id j l x m.leases ((nat_beq_iff n.id j).0 here) at found in
            (
              n,
              rw (lookup-insert n.id j n m.leases) (rw here refl),
              rw same (ap (λ (y : Lease). is_active y.status) e ∙ act),
              place ∙ ap (λ (y : Lease). y.device_id) e ∙ on,
            )
        | inr there ↦ (x, rw (lookup-insert n.id j n m.leases) (rw there found), act, on)
      ];
  placed = λ j x h. elim (found_after n.id j n x m.leases h) [
    | inl (nj, e) ↦
        subst (λ (y : Lease). (d : Device) × (lookup y.device_id m.devices ≡ some d)) e
          (rw place (v.placed n.id l at))
    | inr (ne, old) ↦ v.placed j x old
  ];
  working = v.working;
  distinct = v.distinct;
}
