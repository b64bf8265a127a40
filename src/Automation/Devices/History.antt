-- ===== src/Automation/Devices/History.antt =====
-- The calls of the device manager in any order, and what every history keeps
-- (backend/app/automation/devices.py).
use qa_platform_learning.Common.Tests.{
  ℕ, ◌≡◌, sym, ap, ◌∙◌, Bool, true, false, String, Option, none, some, List, [], nat_keyed,
  text_keyed,
}
use qa_platform_learning.Common.Dict.{lookup}
use qa_platform_learning.Common.Time.{DateTime, ℤ}
use mathlib.Core.Option.{some-injective}
use qa_platform_learning.Automation.Devices.Model.{is_active, Device, Lease}
use qa_platform_learning.Automation.Devices.Manager.{Host, Manager}
use qa_platform_learning.Automation.Devices.Operations.{
  heartbeat, get_device, set_maintenance, expire_leases, register, acquire, start_work, renew,
  release,
}
use qa_platform_learning.Automation.Devices.Invariant.{IsValid}
use qa_platform_learning.Common.Lookup.{same_value}
use qa_platform_learning.Automation.Devices.Preserved.{
  expire_leases-IsValid, heartbeat-IsValid, set_maintenance-IsValid, register-IsValid,
}
use qa_platform_learning.Automation.Devices.Leasing.{
  get_device-IsValid, acquire-IsValid, start_work-IsValid, renew-IsValid, release-IsValid,
}

pub data Call : Type 0 where
  register_call : (name agent kind platform : String) → List String → (clock fresh_id : ℕ) → Call
  heartbeat_call : ℕ → String → Option DateTime → ℕ → Call
  get_call : ℕ → Option DateTime → ℕ → Call
  acquire_call :
      (task owner : String)
      → List String
      → ℤ
      → Option DateTime
      → (clock fresh_id : ℕ) → String
      → Call
  start_call : ℕ → (owner token : String) → Option DateTime → ℕ → Call
  renew_call : ℕ → (owner token : String) → ℤ → Option DateTime → ℕ → Call
  release_call : ℕ → (owner token : String) → Option DateTime → ℕ → Call
  maintenance_call : ℕ → Bool → Option DateTime → ℕ → Call
  expire_call : Option DateTime → ℕ → Call

-- `InMemoryDeviceManager.__init__`
abbrev pub empty_manager : ℕ → Manager
empty_manager window = record { devices = []; leases = []; names = []; offline_after = window }

empty_manager-IsValid : (window : ℕ) → IsValid (empty_manager window)
empty_manager-IsValid window = record {
  device_id = λ k d h. absurd (cc);
  lease_id = λ k d h. absurd (cc);
  named = λ k d h _. absurd (cc);
  ruled = λ k j d h _. absurd (cc);
  placed = λ k d h. absurd (cc);
  working = λ k d h. absurd (cc);
  distinct = tt;
}

module _ (host : Host) where
  -- The manager after a call, whether it returned or raised.
  unfoldable pub after : Call → Manager → Manager
  after (register_call name agent kind platform cs clock id) m =
      (register host name agent kind platform cs clock id m).1
  after (heartbeat_call id agent now clock) m = (heartbeat id agent now clock m).1
  after (get_call id now clock) m = (get_device id now clock m).1
  after (acquire_call task owner cs secs now clock id token) m =
      (acquire host task owner cs secs now clock id token m).1
  after (start_call id owner token now clock) m = (start_work host id owner token now clock m).1
  after (renew_call id owner token secs now clock) m =
      (renew host id owner token secs now clock m).1
  after (release_call id owner token now clock) m = (release host id owner token now clock m).1
  after (maintenance_call id on now clock) m = (set_maintenance id on now clock m).1
  after (expire_call now clock) m = (expire_leases now clock m).1

  -- New ids are not in use, and maintenance is ended for a device without a lease only.
  abbrev pub IsProper : Call → Manager → Type 0
  IsProper (register_call name agent kind platform cs clock id) m = lookup id m.devices ≡ none
  IsProper (acquire_call task owner cs secs now clock id token) m = lookup id m.leases ≡ none
  IsProper (maintenance_call id on now clock) m =
      on ≡ false → (d : Device) → lookup id m.devices ≡ some d → d.active_lease_id ≡ none
  IsProper _ m = Unit

  pub data Run (m : Manager) : Manager → Type 0 where
    start : Run m m
    call : {n : Manager} → Run m n → (c : Call) → IsProper c n → Run m (after c n)

  pub after-IsValid : (c : Call) (m : Manager) → IsValid m → IsProper c m → IsValid (after c m)
  unfolding after
  after-IsValid (register_call name agent kind platform cs clock id) m v p =
      register-IsValid host name agent kind platform cs clock id m v p
  after-IsValid (heartbeat_call id agent now clock) m v p = heartbeat-IsValid id agent now clock m v
  after-IsValid (get_call id now clock) m v p = get_device-IsValid id now clock m v
  after-IsValid (acquire_call task owner cs secs now clock id token) m v p =
      acquire-IsValid host task owner cs secs now clock id token m v p
  after-IsValid (start_call id owner token now clock) m v p =
      start_work-IsValid host id owner token now clock m v
  after-IsValid (renew_call id owner token secs now clock) m v p =
      renew-IsValid host id owner token secs now clock m v
  after-IsValid (release_call id owner token now clock) m v p =
      release-IsValid host id owner token now clock m v
  after-IsValid (maintenance_call id on now clock) m v p =
      set_maintenance-IsValid id on now clock m v p
  after-IsValid (expire_call now clock) m v p = expire_leases-IsValid now clock m v

  -- After any calls on a manager that began empty, devices and leases agree: an active lease is the
  -- one that its device names, a device names active leases on itself only, and a device is
  -- reserved or busy exactly while it names a lease. New ids are fresh, and maintenance is ended
  -- only for a device that names no lease.
  pub device-Run-IsValid : (window : ℕ) (m : Manager) → Run (empty_manager window) m → IsValid m
  device-Run-IsValid window _ start = empty_manager-IsValid window
  device-Run-IsValid window _ (call {n} run c proper) =
      after-IsValid c n (device-Run-IsValid window n run) proper

  -- Two active leases on the same device are one lease, after any calls on a manager that began
  -- empty. New ids are fresh, and maintenance is ended only for a device that names no lease.
  pub device_lease_exclusive :
      (window : ℕ) (m : Manager) (i j : ℕ) (k l : Lease)
      → Run (empty_manager window) m
      → lookup i m.leases ≡ some k
      → lookup j m.leases ≡ some l
      → is_active k.status ≡ true
      → is_active l.status ≡ true
      → k.device_id ≡ l.device_id
      → i ≡ j
  device_lease_exclusive window m i j k l run at_i at_j live_i live_j same =
      let v = device-Run-IsValid window m run in
      let (d, found_i, owns_i) = v.named i k at_i live_i in
      let (e, found_j, owns_j) = v.named j l at_j live_j in
      some-injective _ _ (
        sym owns_i
        ∙ ap (λ (x : Device). x.active_lease_id)
            (same_value k.device_id l.device_id d e m.devices same found_i found_j)
        ∙ owns_j)
