-- ===== src/Automation/Devices/Unheard/Calls.antt =====
-- Each call of the manager leaves a device without a heartbeat if its agent's id is not ASCII
-- (backend/app/automation/devices.py).
use qa_platform_learning.Common.Tests.{
  ◌≢◌, ℕ, ◌≡◌, refl, sym, ap, ◌∙◌, Bool, false, String, Option, none, some, List, [], ◌∷◌,
  nat_keyed, text_keyed, arith,
}
use mathlib.Core.Option.{some-injective}
use qa_platform_learning.Common.Lists.{least_by, All, All-least_by}
use qa_platform_learning.Common.Dict.{lookup}
use qa_platform_learning.Common.Time.{DateTime, ℤ, to_ℕ}
use qa_platform_learning.Common.Result.{Result, ok}
use qa_platform_learning.Common.Holds.{
  Holds, Holds-pure, bind-any, bind-find, bind-lift, bind-gets, bind-raise_if, bind-modify,
  Then-both,
}
use qa_platform_learning.Automation.Errors.{Error}
use qa_platform_learning.Automation.Devices.Model.{busy, Device}
use qa_platform_learning.Automation.Devices.Manager.{Host, Manager, freed, touched, expire_locked}
use qa_platform_learning.Automation.Devices.Operations.{
  is_ascii, compare_digest, candidates, precedes, beaten, maintained, new_device, reserve,
  heartbeat, get_device, set_maintenance, expire_leases, register, take_device, acquire, start_work,
  renew, release,
}
use qa_platform_learning.Automation.Devices.Invariant.{IsValid}
use qa_platform_learning.Automation.Devices.Preserved.{expire_locked-IsValid}
use qa_platform_learning.Automation.Devices.Leasing.{Free, candidates-Free, require_lease-Found}
use qa_platform_learning.Automation.Devices.Unheard.{
  Unheard, freed-SameAgent, maintained-SameAgent, beaten-id, insert_other-Unheard,
  put_device-Unheard, expire_locked-Unheard,
}

module _ (agent : String) (id : ℕ) where
  abbrev Keeps : {B : Type 0} → Result Error B → Manager → Type 0
  Keeps r m = Unheard agent id m.devices

  pub heartbeat-Unheard :
      (device : ℕ) (caller : String) (now : Option DateTime) (clock : ℕ) (m : Manager)
      → IsValid m
      → is_ascii agent ≡ false
      → Unheard agent id m.devices
      → Unheard agent id (heartbeat device caller now clock m).1.devices
  unfolding heartbeat
  heartbeat-Unheard device caller now clock m v foreign u =
      (bind-lift {Post = Keeps} _ _ m (λ _ _. u)
        λ current _.
          bind-find _ _ _ m (λ _. u)
            λ d at.
              bind-lift _ _ m (λ _ _. u)
                λ same compared.
                  bind-raise_if _ _ _ m (λ _. u)
                    λ _.
                      let away : (beaten current d).id ≢ id =
                        λ here. others d at same compared (sym (beaten-id current d) ∙ here) in
                      bind-modify _ _ m (
                        bind-gets _ _ _ (
                          Holds-pure _ _ (
                            insert_other-Unheard agent id m.devices (beaten current d) u away)))).at
    where
      others :
          (d : Device)
          → lookup device m.devices ≡ some d
          → (same : Bool) → compare_digest d.agent_id caller ≡ ok same
          → d.id ≢ id
      others d at same compared here =
          let (x, found, its, never) = u in
          let is_d : x ≡ d = some-injective _ _ (
            sym found
            ∙ ap (λ (i : ℕ). lookup i m.devices) (sym here ∙ v.device_id device d at)
            ∙ at) in
          let refused : is_ascii d.agent_id ≡ false =
            ap (λ (y : Device). is_ascii y.agent_id) (sym is_d) ∙ ap is_ascii its ∙ foreign in
          ground (arith, refused, compared)

  pub get_device-Unheard :
      (device : ℕ) (now : Option DateTime) (clock : ℕ) (m : Manager)
      → IsValid m
      → Unheard agent id m.devices
      → Unheard agent id (get_device device now clock m).1.devices
  unfolding get_device
  get_device-Unheard device now clock m v u =
      (bind-lift {Post = Keeps} _ _ m (λ _ _. u)
        λ current _. bind-any _ _ m (record {
          at =
              let kept = expire_locked-Unheard agent id current m v u in
              Then-both {Post = Keeps} _ (expire_locked current m).0 (expire_locked current m).1
                (λ _. kept)
                λ _. bind-find _ _ _ _ (λ _. kept) λ d _. bind-gets _ _ _ (Holds-pure _ _ kept);
        })).at

  pub set_maintenance-Unheard :
      (device : ℕ) (on : Bool) (now : Option DateTime) (clock : ℕ) (m : Manager)
      → IsValid m
      → Unheard agent id m.devices
      → Unheard agent id (set_maintenance device on now clock m).1.devices
  unfolding set_maintenance
  set_maintenance-Unheard device on now clock m v u =
      (bind-lift {Post = Keeps} _ _ m (λ _ _. u)
        λ current _.
          bind-find _ _ _ m (λ _. u)
            λ d at.
              bind-raise_if _ _ _ m (λ _. u)
                λ _. bind-gets _ _ m (
                  bind-modify _ _ m (
                    Holds-pure _ _ (
                      put_device-Unheard agent id m device d
                        (maintained m.offline_after current on d) v u at
                        (maintained-SameAgent m.offline_after current on d))))).at

  pub expire_leases-Unheard :
      (now : Option DateTime) (clock : ℕ) (m : Manager)
      → IsValid m
      → Unheard agent id m.devices
      → Unheard agent id (expire_leases now clock m).1.devices
  unfolding expire_leases
  expire_leases-Unheard now clock m v u =
      (bind-lift {Post = Keeps} _ _ m (λ _ _. u)
        λ current _. record { at = expire_locked-Unheard agent id current m v u }).at

  module _ (host : Host) where
    pub register-Unheard :
        (name other kind platform : String) (cs : List String) (clock fresh : ℕ) (m : Manager)
        → lookup fresh m.devices ≡ none
        → Unheard agent id m.devices
        → Unheard agent id (register host name other kind platform cs clock fresh m).1.devices
    unfolding register
    register-Unheard name other kind platform cs clock fresh m free u =
        (bind-gets {Post = Keeps} _ _ m (
          bind-raise_if _ _ _ m (λ _. u)
            λ _. bind-gets _ _ m (
              bind-raise_if _ _ _ m (λ _. u)
                λ _.
                  bind-raise_if _ _ _ m (λ _. u)
                    λ _. bind-modify _ _ m (
                      bind-modify _ _ _ (
                        Holds-pure _ _ (
                          insert_other-Unheard agent id m.devices
                            (new_device name other kind platform cs clock fresh) u
                            λ same.
                              cc (sym free ∙ ap (λ (i : ℕ). lookup i m.devices) same ∙ u.1))))))).at

    take_device-Unheard :
        (task owner token : String) (secs now fresh : ℕ) (ds : List Device) (m : Manager)
        → IsValid m
        → Unheard agent id m.devices
        → All (Free m) ds
        → Holds Keeps (take_device host task owner token secs now fresh ds) m
    unfolding take_device
    take_device-Unheard task owner token secs now fresh [] m v u free = Holds-pure _ m u
    take_device-Unheard task owner token secs now fresh (d ∷ ds) m v u free =
        let chosen = least_by (precedes host) d ds in
        let (at, idle') = All-least_by (Free m) (precedes host) d ds free.0 free.1 in
        bind-modify _ _ m (
          bind-modify _ _ _ (
            Holds-pure _ _ (
              put_device-Unheard agent id m chosen.id chosen (reserve fresh now chosen) v u at
                (refl, refl, refl))))

    pub acquire-Unheard :
        (task owner : String) (required : List String) (secs : ℤ) (now : Option DateTime)
        (clock fresh : ℕ) (token : String) (m : Manager)
        → IsValid m
        → Unheard agent id m.devices
        → Unheard agent id (acquire host task owner required secs now clock fresh token m).1.devices
    unfolding acquire
    acquire-Unheard task owner required secs now clock fresh token m v u =
        (bind-raise_if {Post = Keeps} _ _ _ m (λ _. u)
          λ _.
            bind-lift _ _ m (λ _ _. u)
              λ current _. bind-any _ _ m (record {
                at =
                    let w = expire_locked-IsValid current m v in
                    let kept = expire_locked-Unheard agent id current m v u in
                    Then-both {Post = Keeps} _ (expire_locked current m).0
                      (expire_locked current m).1 (λ _. kept)
                      λ _. bind-gets _ _ _ (
                        take_device-Unheard task owner token (to_ℕ secs) current fresh
                          (candidates required current (expire_locked current m).1) _ w kept
                          (candidates-Free required current _ w));
              })).at

    pub start_work-Unheard :
        (lease : ℕ) (owner token : String) (now : Option DateTime) (clock : ℕ) (m : Manager)
        → IsValid m
        → Unheard agent id m.devices
        → Unheard agent id (start_work host lease owner token now clock m).1.devices
    unfolding start_work
    start_work-Unheard lease owner token now clock m v u =
        (bind-lift {Post = Keeps} _ _ m (λ _ _. u)
          λ current _.
            require_lease-Found host _ lease owner token current m (λ _. u)
              λ l d at rightful there names. bind-modify _ _ m (
                Holds-pure _ _ (
                  put_device-Unheard agent id m l.device_id d
                    (touched current (record d { status = busy })) v u there
                    (refl, refl, refl)))).at

    pub renew-Unheard :
        (lease : ℕ) (owner token : String) (secs : ℤ) (now : Option DateTime) (clock : ℕ)
        (m : Manager)
        → Unheard agent id m.devices
        → Unheard agent id (renew host lease owner token secs now clock m).1.devices
    unfolding renew
    renew-Unheard lease owner token secs now clock m u =
        (bind-raise_if {Post = Keeps} _ _ _ m (λ _. u)
          λ _.
            bind-lift _ _ m (λ _ _. u)
              λ current _.
                require_lease-Found host _ lease owner token current m (λ _. u)
                  λ l d at rightful there names. bind-modify _ _ m (Holds-pure _ _ u)).at

    pub release-Unheard :
        (lease : ℕ) (owner token : String) (now : Option DateTime) (clock : ℕ) (m : Manager)
        → IsValid m
        → Unheard agent id m.devices
        → Unheard agent id (release host lease owner token now clock m).1.devices
    unfolding release
    release-Unheard lease owner token now clock m v u =
        (bind-lift {Post = Keeps} _ _ m (λ _ _. u)
          λ current _.
            require_lease-Found host _ lease owner token current m (λ _. u)
              λ l d at rightful there names. bind-gets _ _ m (
                bind-modify _ _ m (
                  bind-modify _ _ _ (
                    Holds-pure _ _ (
                      put_device-Unheard agent id m l.device_id d (freed m.offline_after current d)
                        v u there (freed-SameAgent m.offline_after current d)))))).at
