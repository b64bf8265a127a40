-- ===== src/Automation/Devices/Changes.antt =====
-- Leases that begin and end, and devices that are registered (backend/app/automation/devices.py): the
-- changes of two dictionaries at once that keep the manager's invariant.
use qa_platform_learning.Common.Tests.{
  nat_keyed, ℕ, ◌≡◌, sym, ap, ◌∙◌, ◌≢◌, inl, inr, true, false, none, some, is_some,
}
use qa_platform_learning.Common.Dict.{
  Dict, Distinct-insert, lookup, insert, lookup-insert_self, lookup-insert_ne,
}
use qa_platform_learning.Automation.Devices.Model.{is_active, Device, Lease}
use qa_platform_learning.Automation.Devices.Manager.{Manager, put_device, put_lease}
use qa_platform_learning.Common.Lookup.{found_after, present_after, same_value}
use mathlib.Core.Path.{subst}
use mathlib.Core.Option.{some-injective}
use qa_platform_learning.Automation.Devices.Invariant.{is_working, Names, Rules, IsValid}

-- Writing a device that no active lease of the rest needs keeps the names of the others.
Names-beside :
    (ds : Dict ℕ Device) (e : Device) (k j : ℕ)
    → e.id ≢ k
    → Names ds k j
    → Names (insert e.id e ds) k j
Names-beside ds e k j ne (x, found, names) = (x, lookup-insert_ne e.id k e ds ne ∙ found, names)

Rules-beside :
    (ls : Dict ℕ Lease) (n : Lease) (j k : ℕ)
    → n.id ≢ j
    → Rules ls j k
    → Rules (insert n.id n ls) j k
Rules-beside ls n j k ne (x, found, act, on) = (x, lookup-insert_ne n.id j n ls ne ∙ found, act, on)

module _ (m : Manager) (v : IsValid m) (n : Lease) (e : Device) where
  ids_after : (k : ℕ) (x : Device) → lookup k (insert e.id e m.devices) ≡ some x → x.id ≡ k
  ids_after k x h = elim (found_after e.id k e x m.devices h) [
    | inl (ek, ex) ↦ ap (λ (y : Device). y.id) (sym ex) ∙ ek
    | inr (ne, old) ↦ v.device_id k x old
  ]

  lease_ids_after : (j : ℕ) (x : Lease) → lookup j (insert n.id n m.leases) ≡ some x → x.id ≡ j
  lease_ids_after j x h = elim (found_after n.id j n x m.leases h) [
    | inl (nj, nx) ↦ ap (λ (y : Lease). y.id) (sym nx) ∙ nj
    | inr (ne, old) ↦ v.lease_id j x old
  ]

  working_after :
      is_some e.active_lease_id ≡ is_working e.status
      → (k : ℕ) (x : Device) → lookup k (insert e.id e m.devices) ≡ some x
      → is_some x.active_lease_id ≡ is_working x.status
  working_after works k x h = elim (found_after e.id k e x m.devices h) [
    | inl (ek, ex) ↦
        subst (λ (y : Device). is_some y.active_lease_id ≡ is_working y.status) ex works
    | inr (ne, old) ↦ v.working k x old
  ]

  placed_after :
      (d : Device) × (lookup n.device_id m.devices ≡ some d)
      → (j : ℕ) (x : Lease) → lookup j (insert n.id n m.leases) ≡ some x
      → (d : Device) × (lookup x.device_id (insert e.id e m.devices) ≡ some d)
  placed_after there j x h = elim (found_after n.id j n x m.leases h) [
    | inl (nj, nx) ↦
        present_after e.id x.device_id e m.devices
          (subst (λ (y : Lease). (d : Device) × (lookup y.device_id m.devices ≡ some d)) nx there)
    | inr (ne, old) ↦ present_after e.id x.device_id e m.devices (v.placed j x old)
  ]

-- The active lease of a device ends, and the device names none.
pub end_lease-IsValid :
    (m : Manager) (l n : Lease) (d e : Device)
    → IsValid m
    → lookup n.id m.leases ≡ some l
    → n.device_id ≡ l.device_id
    → is_active n.status ≡ false
    → e.id ≡ l.device_id
    → lookup e.id m.devices ≡ some d
    → d.active_lease_id ≡ some n.id
    → e.active_lease_id ≡ none
    → is_working e.status ≡ false
    → IsValid (put_device e (put_lease n m))
end_lease-IsValid m l n d e v at place over on there names free idles = record {
  device_id = ids_after m v n e;
  lease_id = lease_ids_after m v n e;
  named = λ j x h act. elim (found_after n.id j n x m.leases h) [
    | inl (nj, nx) ↦ absurd (cc (sym over ∙ ap (λ (y : Lease). is_active y.status) nx ∙ act))
    | inr (ne, old) ↦
        let (y, found, own) = v.named j x old act in
        Names-beside m.devices e x.device_id j (λ same. ne (clash same y found own))
          (v.named j x old act)
  ];
  ruled = λ k j x h own. elim (found_after e.id k e x m.devices h) [
    | inl (ek, ex) ↦ absurd (cc (sym free ∙ ap (λ (y : Device). y.active_lease_id) ex ∙ own))
    | inr (ne, old) ↦
        let (y, found, act, place') = v.ruled k j x old own in
        Rules-beside m.leases n j k
          (λ same. ne (
            on
            ∙ ap (λ (z : Lease). z.device_id) (same_value n.id j l y m.leases same at found)
            ∙ place'))
          (v.ruled k j x old own)
  ];
  placed = placed_after m v n e (d, ap (λ (k : ℕ). lookup k m.devices) (place ∙ sym on) ∙ there);
  working = working_after m v n e (rw free (sym idles));
  distinct = Distinct-insert e.id e m.devices v.distinct;
}
  where
    clash :
        {k j : ℕ}
        → e.id ≡ k
        → (y : Device) → lookup k m.devices ≡ some y
        → y.active_lease_id ≡ some j
        → n.id ≡ j
    clash {k} {j} same y found own = some-injective _ _ (
        sym names
        ∙ ap (λ (z : Device). z.active_lease_id) (same_value e.id k d y m.devices same there found)
        ∙ own)

-- A new lease on a device that named none.
pub begin_lease-IsValid :
    (m : Manager) (n : Lease) (d e : Device)
    → IsValid m
    → lookup n.id m.leases ≡ none
    → n.device_id ≡ e.id
    → is_active n.status ≡ true
    → lookup e.id m.devices ≡ some d
    → d.active_lease_id ≡ none
    → e.active_lease_id ≡ some n.id
    → is_working e.status ≡ true
    → IsValid (put_device e (put_lease n m))
begin_lease-IsValid m n d e v fresh place live there free names works = record {
  device_id = ids_after m v n e;
  lease_id = lease_ids_after m v n e;
  named = λ j x h act. elim (found_after n.id j n x m.leases h) [
    | inl (nj, nx) ↦ (
      e,
      ap (λ (k : ℕ). lookup k (insert e.id e m.devices))
            (ap (λ (y : Lease). y.device_id) (sym nx) ∙ place)
          ∙ lookup-insert_self e.id e m.devices,
      names ∙ ap some nj,
    )
    | inr (ne, old) ↦
        let (y, found, own) = v.named j x old act in
        Names-beside m.devices e x.device_id j
          (λ same. cc (
            sym free
            ∙ ap (λ (z : Device). z.active_lease_id)
                (same_value e.id x.device_id d y m.devices same there found)
            ∙ own))
          (v.named j x old act)
  ];
  ruled = λ k j x h own. elim (found_after e.id k e x m.devices h) [
    | inl (ek, ex) ↦
        let nj : n.id ≡ j =
          some-injective _ _ (sym names ∙ ap (λ (y : Device). y.active_lease_id) ex ∙ own) in
        (
          n,
          ap (λ (i : ℕ). lookup i (insert n.id n m.leases)) (sym nj)
              ∙ lookup-insert_self n.id n m.leases,
          live,
          place ∙ ek,
        )
    | inr (ne, old) ↦
        let (y, found, act, place') = v.ruled k j x old own in
        Rules-beside m.leases n j k
          (λ same. cc (sym fresh ∙ ap (λ (i : ℕ). lookup i m.leases) same ∙ found))
          (v.ruled k j x old own)
  ];
  placed = placed_after m v n e (d, ap (λ (k : ℕ). lookup k m.devices) place ∙ there);
  working = working_after m v n e (rw names (sym works));
  distinct = Distinct-insert e.id e m.devices v.distinct;
}

-- A new device, with no lease.
pub add_device-IsValid :
    (m : Manager) (e : Device)
    → IsValid m
    → lookup e.id m.devices ≡ none
    → e.active_lease_id ≡ none
    → is_working e.status ≡ false
    → IsValid (put_device e m)
add_device-IsValid m e v fresh free idles = record {
  device_id = λ k x h. elim (found_after e.id k e x m.devices h) [
    | inl (ek, ex) ↦ ap (λ (y : Device). y.id) (sym ex) ∙ ek
    | inr (ne, old) ↦ v.device_id k x old
  ];
  lease_id = v.lease_id;
  named = λ j x h act.
      let (y, found, own) = v.named j x h act in
      Names-beside m.devices e x.device_id j
        (λ same. cc (sym fresh ∙ ap (λ (i : ℕ). lookup i m.devices) same ∙ found))
        (v.named j x h act);
  ruled = λ k j x h own. elim (found_after e.id k e x m.devices h) [
    | inl (ek, ex) ↦ absurd (cc (sym free ∙ ap (λ (y : Device). y.active_lease_id) ex ∙ own))
    | inr (ne, old) ↦ v.ruled k j x old own
  ];
  placed = λ j x h. present_after e.id x.device_id e m.devices (v.placed j x h);
  working = λ k x h. elim (found_after e.id k e x m.devices h) [
    | inl (ek, ex) ↦
        subst (λ (y : Device). is_some y.active_lease_id ≡ is_working y.status) ex
          (rw free (sym idles))
    | inr (ne, old) ↦ v.working k x old
  ];
  distinct = Distinct-insert e.id e m.devices v.distinct;
}
