-- ===== src/Automation/Devices/Leasing.antt =====
-- The methods of the device manager that give, use and take back leases keep its invariant
-- (backend/app/automation/devices.py).
use qa_platform_learning.Common.Tests.{
  ℕ, ◌≡◌, refl, ap, ◌∙◌, arith, true_of_not, true, String, Option, none, some, List, [], ◌∷◌,
  is_some, nat_keyed, text_keyed,
}
use qa_platform_learning.Common.Lists.{select, least_by, All, All-select, All-map, All-least_by}
use qa_platform_learning.Common.Dict.{values, lookup, Every-values}
use qa_platform_learning.Common.Result.{Result, err, Action, ◌>>=◌}
use qa_platform_learning.Common.Time.{DateTime, ℤ, to_ℕ}
use qa_platform_learning.Automation.Errors.{Error}
use qa_platform_learning.Automation.Devices.Model.{busy, released, Device, Lease}
use qa_platform_learning.Automation.Devices.Manager.{
  lease_holds, Host, Manager, effective_status, touched, expire_locked, require_lease,
}
use qa_platform_learning.Common.Holds.{
  Holds, Holds-pure, bind-any, bind-find, bind-lift, bind-gets, bind-raise_if, bind-modify, Then,
  Then-both,
}
use qa_platform_learning.Automation.Devices.Operations.{
  get_device, is_candidate, candidates, precedes, new_lease, reserve, take_device, acquire,
  start_work, renewed, renew, release,
}
use qa_platform_learning.Automation.Devices.Invariant.{is_working, IsValid, keep_lease-IsValid}
use qa_platform_learning.Automation.Devices.Changes.{begin_lease-IsValid}
use qa_platform_learning.Common.Dict.{Distinct-lookup}
use qa_platform_learning.Automation.Devices.Preserved.{
  Keeps, given_up-IsValid, rewrite_device, holds_iff, expire_locked-IsValid, expire_locked-misses,
}

pub get_device-IsValid :
    (id : ℕ) (now : Option DateTime) (clock : ℕ) (m : Manager)
    → IsValid m
    → IsValid (get_device id now clock m).1
unfolding get_device
get_device-IsValid id now clock m v =
    (bind-lift {Post = Keeps} _ _ m (λ _ _. v)
      λ current _. bind-any _ _ m (record {
        at =
            let kept = expire_locked-IsValid current m v in
            Then-both _ (expire_locked current m).0 (expire_locked current m).1 (λ _. kept)
              λ _. bind-find _ _ _ _ (λ _. kept) λ d _. bind-gets _ _ _ (Holds-pure _ _ kept);
      })).at

-- A device that stands under its id in the dictionary.
abbrev At : Manager → Device → Type 0
At m d = lookup d.id m.devices ≡ some d

values-At : (m : Manager) → IsValid m → All (At m) (values m.devices)
values-At m v =
    Every-values (λ k d. lookup k m.devices ≡ some d) (At m)
      (λ k d found. ap (λ (i : ℕ). lookup i m.devices) (v.device_id k d found) ∙ found) m.devices
      (Distinct-lookup m.devices v.distinct)

-- A device without a lease, under its id.
abbrev pub Free : Manager → Device → Type 0
Free m d = (lookup d.id m.devices ≡ some d) × (d.active_lease_id ≡ none)

candidate-Free :
    (required : List String) (window now : ℕ) (d : Device)
    → is_some d.active_lease_id ≡ is_working d.status
    → is_candidate required window now d ≡ true
    → d.active_lease_id ≡ none
unfolding is_candidate effective_status
candidate-Free required window now d works h = ground arith

-- In a valid manager, a device that may be leased holds no lease.
pub candidates-Free :
    (required : List String) (now : ℕ) (m : Manager)
    → IsValid m
    → All (Free m) (candidates required now m)
unfolding candidates
candidates-Free required now m v =
    All-map (λ d. At m d × (is_candidate required m.offline_after now d ≡ true)) (Free m)
      (λ d (at, passes).
        (at, candidate-Free required m.offline_after now d (v.working d.id d at) passes))
      (select (is_candidate required m.offline_after now) (values m.devices))
      (All-select (At m) (is_candidate required m.offline_after now) (values m.devices)
        (values-At m v))

module _ (host : Host) where
  take_device-IsValid :
      (task owner token : String) (secs now id : ℕ) (ds : List Device) (m : Manager)
      → IsValid m
      → lookup id m.leases ≡ none
      → All (Free m) ds
      → Holds Keeps (take_device host task owner token secs now id ds) m
  unfolding take_device
  take_device-IsValid task owner token secs now id [] m v fresh free = Holds-pure _ m v
  take_device-IsValid task owner token secs now id (d ∷ ds) m v fresh free =
      let chosen = least_by (precedes host) d ds in
      let (at, idle') = All-least_by (Free m) (precedes host) d ds free.0 free.1 in
      bind-modify _ _ m (
        bind-modify _ _ _ (
          Holds-pure _ _ (
            begin_lease-IsValid m (new_lease host chosen.id task owner token secs now id) chosen
              (reserve id now chosen) v fresh refl refl at idle' refl refl)))

  pub acquire-IsValid :
      (task owner : String) (required : List String) (secs : ℤ) (now : Option DateTime)
      (clock id : ℕ) (token : String) (m : Manager)
      → IsValid m
      → lookup id m.leases ≡ none
      → IsValid (acquire host task owner required secs now clock id token m).1
  unfolding acquire
  acquire-IsValid task owner required secs now clock id token m v fresh =
      (bind-raise_if {Post = Keeps} _ _ _ m (λ _. v)
        λ _.
          bind-lift _ _ m (λ _ _. v)
            λ current _. bind-any _ _ m (record {
              at =
                  let kept = expire_locked-IsValid current m v in
                  Then-both _ (expire_locked current m).0 (expire_locked current m).1 (λ _. kept)
                    λ _. bind-gets _ _ _ (
                      take_device-IsValid task owner token (to_ℕ secs) current id
                        (candidates required current (expire_locked current m).1) _ kept
                        (expire_locked-misses current id m v fresh)
                        (candidates-Free required current _ kept));
            })).at

  -- The lease and the device that a holder of the token finds.
  pub require_lease-Found :
      {B : Type 0} {Post : Result Error B → Manager → Type 0}
      (f : (Lease × Device) → Action Manager Error B) (id : ℕ) (owner token : String) (now : ℕ)
      (m : Manager)
      → ((e : Error) → Post (err e) m)
      → ((l : Lease) (d : Device)
          → lookup id m.leases ≡ some l
          → lease_holds host l owner token now ≡ true
          → lookup l.device_id m.devices ≡ some d
          → d.active_lease_id ≡ some l.id
          → Holds Post (f (l, d)) m)
      → Holds Post (require_lease host id owner token now >>= f) m
  unfolding require_lease
  require_lease-Found {B} {Post} f id owner token now m bad good = bind-any _ f m (
      bind-find _ _ _ m (λ _. found (bad _))
        λ l at.
          bind-raise_if _ _ _ m (λ _. found (bad _))
            λ rightful.
              bind-find _ _ _ m (λ _. found (bad _))
                λ d there.
                  bind-raise_if _ _ _ m (λ _. found (bad _))
                    λ names. Holds-pure _ m (
                      good l d at (true_of_not _ rightful) there
                        (holds_iff _ _ (true_of_not _ names))))
    where
      found : {e : Error} → Post (err e) m → Then Post f (err e) m
      found h = h

  pub start_work-IsValid :
      (id : ℕ) (owner token : String) (now : Option DateTime) (clock : ℕ) (m : Manager)
      → IsValid m
      → IsValid (start_work host id owner token now clock m).1
  unfolding start_work
  start_work-IsValid id owner token now clock m v =
      (bind-lift {Post = Keeps} _ _ m (λ _ _. v)
        λ current _.
          require_lease-Found _ id owner token current m (λ _. v)
            λ l d at rightful there names. bind-modify _ _ m (
              Holds-pure _ _ (
                rewrite_device m d (touched current (record d { status = busy })) l.device_id v
                  there (refl, refl, rw names refl)))).at

  pub renew-IsValid :
      (id : ℕ) (owner token : String) (secs : ℤ) (now : Option DateTime) (clock : ℕ) (m : Manager)
      → IsValid m
      → IsValid (renew host id owner token secs now clock m).1
  unfolding renew
  renew-IsValid id owner token secs now clock m v =
      (bind-raise_if {Post = Keeps} _ _ _ m (λ _. v)
        λ _.
          bind-lift _ _ m (λ _ _. v)
            λ current _.
              require_lease-Found _ id owner token current m (λ _. v)
                λ l d at rightful there names. bind-modify _ _ m (
                  Holds-pure _ _ (
                    keep_lease-IsValid m l (renewed current (to_ℕ secs) l) v
                      (ap (λ (i : ℕ). lookup i m.leases) (v.lease_id id l at) ∙ at) refl refl))).at

  pub release-IsValid :
      (id : ℕ) (owner token : String) (now : Option DateTime) (clock : ℕ) (m : Manager)
      → IsValid m
      → IsValid (release host id owner token now clock m).1
  unfolding release
  release-IsValid id owner token now clock m v =
      (bind-lift {Post = Keeps} _ _ m (λ _ _. v)
        λ current _.
          require_lease-Found _ id owner token current m (λ _. v)
            λ l d at rightful there names. bind-gets _ _ m (
              bind-modify _ _ m (
                bind-modify _ _ _ (
                  Holds-pure _ _ (
                    given_up-IsValid m l d released current v refl
                      (ap (λ (i : ℕ). lookup i m.leases) (v.lease_id id l at) ∙ at) there
                      names))))).at
