-- ===== src/Automation/Devices/Foreign.antt =====
-- A device whose agent's id is not ASCII is never used, whatever is called (backend/app/automation/devices.py).
use qa_platform_learning.Common.Tests.{
  ℕ, ◌≡◌, refl, ap, ◌∙◌, false, String, Option, none, some, List, nat_keyed, text_keyed,
}
use mathlib.Core.Path.{subst}
use qa_platform_learning.Common.Dict.{lookup, lookup-insert_self}
use qa_platform_learning.Common.Time.{DateTime}
use qa_platform_learning.Common.Result.{Result, ok, err}
use qa_platform_learning.Common.Holds.{Holds, Holds-pure, bind-gets, bind-raise_if, bind-modify}
use qa_platform_learning.Automation.Errors.{Error, type_error, resolve}
use qa_platform_learning.Automation.Devices.Model.{Device}
use qa_platform_learning.Automation.Devices.Manager.{Host, Manager}
use qa_platform_learning.Automation.Devices.Operations.{is_ascii, is_candidate, heartbeat, register}
use qa_platform_learning.Automation.Devices.Invariant.{IsValid}
use qa_platform_learning.Automation.Devices.Preserved.{register-IsValid}
use qa_platform_learning.Automation.Devices.Unheard.{Unheard, not_ascii-refuses, unheard-offline}
use qa_platform_learning.Automation.Devices.Unheard.Calls.{
  heartbeat-Unheard, get_device-Unheard, set_maintenance-Unheard, expire_leases-Unheard,
  register-Unheard, acquire-Unheard, start_work-Unheard, renew-Unheard, release-Unheard,
}
use qa_platform_learning.Automation.Devices.History.{
  Call, register_call, heartbeat_call, get_call, acquire_call, start_call, renew_call, release_call,
  maintenance_call, expire_call, empty_manager, Run, start, call, after, IsProper, after-IsValid,
  device-Run-IsValid,
}

module _ (host : Host) (agent : String) (id : ℕ) where
  Registers : Result Error Device → Manager → Type 0
  Registers (err e) m = Unit
  Registers (ok d) m = Unheard agent id m.devices

  register-makes :
      (name kind platform : String) (capabilities : List String) (clock : ℕ) (m : Manager)
      → Holds Registers (register host name agent kind platform capabilities clock id) m
  unfolding register Registers
  register-makes name kind platform capabilities clock m = bind-gets _ _ m (
      bind-raise_if _ _ _ m (λ _. tt)
        λ _. bind-gets _ _ m (
          bind-raise_if _ _ _ m (λ _. tt)
            λ _.
              bind-raise_if _ _ _ m (λ _. tt)
                λ _. bind-modify _ _ m (
                  bind-modify _ _ _
                    (Holds-pure _ _ (_, lookup-insert_self id _ m.devices, refl, refl)))))

  after-Unheard :
      (c : Call) (m : Manager)
      → is_ascii agent ≡ false
      → IsValid m
      → IsProper host c m
      → Unheard agent id m.devices
      → Unheard agent id (after host c m).devices
  unfolding after
  after-Unheard (register_call name other kind platform cs clock fresh) m foreign v p u =
      register-Unheard agent id host name other kind platform cs clock fresh m p u
  after-Unheard (heartbeat_call device caller now clock) m foreign v p u =
      heartbeat-Unheard agent id device caller now clock m v foreign u
  after-Unheard (get_call device now clock) m foreign v p u =
      get_device-Unheard agent id device now clock m v u
  after-Unheard (acquire_call task owner cs secs now clock fresh token) m foreign v p u =
      acquire-Unheard agent id host task owner cs secs now clock fresh token m v u
  after-Unheard (start_call lease owner token now clock) m foreign v p u =
      start_work-Unheard agent id host lease owner token now clock m v u
  after-Unheard (renew_call lease owner token secs now clock) m foreign v p u =
      renew-Unheard agent id host lease owner token secs now clock m u
  after-Unheard (release_call lease owner token now clock) m foreign v p u =
      release-Unheard agent id host lease owner token now clock m v u
  after-Unheard (maintenance_call device on now clock) m foreign v p u =
      set_maintenance-Unheard agent id device on now clock m v u
  after-Unheard (expire_call now clock) m foreign v p u =
      expire_leases-Unheard agent id now clock m v u

  Run-Unheard :
      (n p : Manager)
      → is_ascii agent ≡ false
      → IsValid n
      → Unheard agent id n.devices
      → Run host n p
      → IsValid p × Unheard agent id p.devices
  Run-Unheard n _ foreign v u start = (v, u)
  Run-Unheard n _ foreign v u (call {n = p} run c proper) =
      let (w, k) = Run-Unheard n p foreign v u run in
      (after-IsValid host c p w proper, after-Unheard c p foreign w proper k)

  -- The device `id` is there, every heartbeat of it raises a type error and changes nothing, and it is no candidate for
  -- a lease.
  abbrev pub IsUnusable :
      String → List String → Option DateTime → (clock current : ℕ) → Manager → Type 0
  IsUnusable caller required now clock current p =
      (heartbeat id caller now clock p ≡ (err type_error, p))
      × (d : Device) × (lookup id p.devices ≡ some d)
      × (is_candidate required p.offline_after current d ≡ false)

  -- A device that is registered for an agent whose id is not ASCII can never be used: after the
  -- registration and any further calls, every heartbeat of it at a time that can be read raises a
  -- type error, the agent's own too, and changes nothing, and the device is no candidate for a
  -- lease then, for any capabilities. The calls before the registration began on an empty manager,
  -- new ids are fresh, and maintenance is ended only for a device that names no lease.
  pub registered_not_ascii :
      (name kind platform : String) (capabilities : List String) (window clock : ℕ)
      (m n p : Manager) (d : Device)
      → is_ascii agent ≡ false
      → Run host (empty_manager window) m
      → lookup id m.devices ≡ none
      → register host name agent kind platform capabilities clock id m ≡ (ok d, n)
      → Run host n p
      → (caller : String) (required : List String) (later : Option DateTime)
        (later_clock current : ℕ)
      → resolve later later_clock ≡ ok current
      → IsUnusable caller required later later_clock current p
  unfolding Registers
  registered_not_ascii name kind platform capabilities window clock m n p d foreign past fresh e run
        caller required later later_clock current time =
      let made =
        subst (λ (r : Result Error Device × Manager). Registers r.0 r.1) e
          (register-makes name kind platform capabilities clock m).at in
      let valid : IsValid n =
        subst (λ (r : Result Error Device × Manager). IsValid r.1) e
          (register-IsValid host name agent kind platform capabilities clock id m
            (device-Run-IsValid host window m past) fresh) in
      let (w, heard) = Run-Unheard n p foreign valid made run in
      let (x, at, its, never) = heard in
      (
        not_ascii-refuses id caller later later_clock current p x time at
            (ap is_ascii its ∙ foreign),
        x,
        at,
        unheard-offline required p.offline_after current x never,
      )
