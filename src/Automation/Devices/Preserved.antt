-- ===== src/Automation/Devices/Preserved.antt =====
-- Every method of the device manager keeps its invariant, but one that ends the maintenance of a
-- device which is leased (backend/app/automation/devices.py).
use qa_platform_learning.Common.Tests.{
  ℕ, ◌≡◌, refl, sym, ap, ◌∙◌, inl, inr, arith, nat_beq_iff, Bool-cases, Option-cases, Bool, true,
  false, ◌&&◌, String, Option, none, some, List, [], ◌∷◌, is_some, nat_keyed, text_keyed,
}
use qa_platform_learning.Common.Dict.{lookup, insert, lookup-insert_ne}
use qa_platform_learning.Common.Result.{Result, ok, Action, pure, ◌>>=◌}
use qa_platform_learning.Common.Time.{DateTime}
use qa_platform_learning.Automation.Errors.{Error}
use qa_platform_learning.Automation.Devices.Model.{is_active, LeaseStatus, expired, Device, Lease}
use qa_platform_learning.Automation.Devices.Manager.{
  expire_one, expire_loop, holds, is_over, keys, add_some, Host, Manager, put_device, put_lease,
  freed, ended, expire_locked,
}
use qa_platform_learning.Common.Holds.{
  Holds, Holds-pure, bind-any, bind-find, bind-lift, bind-gets, bind-raise_if, bind-modify,
  Then-both,
}
use qa_platform_learning.Automation.Devices.Operations.{
  new_device, beaten, heartbeat, maintained, set_maintenance, expire_leases, register,
}
use qa_platform_learning.Automation.Devices.Invariant.{is_working, IsValid, keep_device-IsValid}
use qa_platform_learning.Automation.Devices.Changes.{end_lease-IsValid, add_device-IsValid}

-- The outcome of a method leaves the manager valid.
abbrev pub Keeps : {B : Type 0} → Result Error B → Manager → Type 0
Keeps r m = IsValid m

freed-rests : (window now : ℕ) (d : Device) → is_working (freed window now d).status ≡ false
unfolding freed
freed-rests window now d = ground arith

freed-free :
    (window now : ℕ) (d : Device)
    → ((freed window now d).id ≡ d.id) × ((freed window now d).active_lease_id ≡ none)
unfolding freed
freed-free window now d = (refl, refl)

pub holds_iff : (o : Option ℕ) (id : ℕ) → holds o id ≡ true → o ≡ some id
holds_iff none id h = cc
holds_iff (some j) id h = ap {B = Option ℕ} some ((nat_beq_iff j id).0 h)

-- A device found under the id of a lease that it names gives the lease up.
pub given_up-IsValid :
    (m : Manager) (l : Lease) (d : Device) (s : LeaseStatus) (now : ℕ)
    → IsValid m
    → is_active s ≡ false
    → lookup l.id m.leases ≡ some l
    → lookup l.device_id m.devices ≡ some d
    → d.active_lease_id ≡ some l.id
    → IsValid (put_device (freed m.offline_after now d) (put_lease (ended s now l) m))
given_up-IsValid m l d s now v over at there names =
    let (same_id, free) = freed-free m.offline_after now d in
    let own = v.device_id l.device_id d there in
    end_lease-IsValid m l (ended s now l) d (freed m.offline_after now d) v at refl over
      (same_id ∙ own) (ap (λ (k : ℕ). lookup k m.devices) (same_id ∙ own) ∙ there) names free
      (freed-rests m.offline_after now d)

pub expire_one-over :
    (now k : ℕ) (m : Manager) (l : Lease) (d : Device)
    → lookup k m.leases ≡ some l
    → is_over now l ≡ true
    → lookup l.device_id m.devices ≡ some d
    → holds d.active_lease_id l.id ≡ true
    → expire_one now k m ≡ (
      ok (some (ended expired now l)),
      put_device (freed m.offline_after now d) (put_lease (ended expired now l) m),
    )
unfolding expire_one
expire_one-over now k m l d at over there names =
    rw (at, expire_one) (rw over (rw there (rw names refl)))

pub expire_one-live :
    (now k : ℕ) (m : Manager) (l : Lease)
    → lookup k m.leases ≡ some l
    → is_over now l ≡ false
    → expire_one now k m ≡ (ok none, m)
unfolding expire_one
expire_one-live now k m l at live = rw (at, expire_one) (rw live refl)

pub expire_one-missing :
    (now k : ℕ) (m : Manager) → lookup k m.leases ≡ none → expire_one now k m ≡ (ok none, m)
unfolding expire_one
expire_one-missing now k m missing = rw (missing, expire_one) refl

pub holds-some : (o : Option ℕ) (id : ℕ) → o ≡ some id → holds o id ≡ true
holds-some o id e = rw e ((nat_beq_iff id id).1 refl)

-- What the loop does to one lease, in a valid manager.
pub expire_one-IsValid : (now k : ℕ) (m : Manager) → IsValid m → IsValid (expire_one now k m).1
expire_one-IsValid now k m v = elim (Option-cases (lookup k m.leases)) [
  | inl missing ↦ rw (expire_one-missing now k m missing) v
  | inr (l, at) ↦ elim (Bool-cases (is_over now l)) [
    | inl over ↦
        let lives : is_active l.status ≡ true = ground arith in
        let (d, there, names) = v.named k l at lives in
        let own = v.lease_id k l at in
        let names' : d.active_lease_id ≡ some l.id = names ∙ ap some (sym own) in
        rw (expire_one-over now k m l d at over there (holds-some _ _ names')) (
          given_up-IsValid m l d expired now v refl (ap (λ (i : ℕ). lookup i m.leases) own ∙ at)
            there names')
    | inr live ↦ rw (expire_one-live now k m l at live) v
  ]
]

-- What a step of the loop keeps, the loop keeps.
module _ (P : Manager → Type 0) (now : ℕ)
    (step : (k : ℕ) (m : Manager) → P m → P (expire_one now k m).1) where
  abbrev Stays : {B : Type 0} → Result Error B → Manager → Type 0
  Stays r m = P m

  abbrev pub last : Option Lease → List Lease → Action Manager Error (List Lease)
  last changed ls = pure (add_some changed ls)

  pub expire_loop-keeps : (ks : List ℕ) (m : Manager) → P m → Holds Stays (expire_loop now ks) m
  unfolding expire_loop
  expire_loop-keeps [] m v = Holds-pure _ m v
  expire_loop-keeps (k ∷ ks) m v =
      let kept = step k m v in
      bind-any (expire_one now k) (λ changed. expire_loop now ks >>= last changed) m
        (record {
          at =
              Then-both {Post = Stays} _ (expire_one now k m).0 (expire_one now k m).1 (λ _. kept)
                λ changed.
                  bind-any (expire_loop now ks) (last changed) (expire_one now k m).1 (record {
                    at =
                        let kept' = (expire_loop-keeps ks (expire_one now k m).1 kept).at in
                        Then-both {Post = Stays} (last changed)
                          (expire_loop now ks (expire_one now k m).1).0
                          (expire_loop now ks (expire_one now k m).1).1 (λ _. kept')
                          λ ls. Holds-pure _ _ kept';
                  });
        })

  pub expire_locked-keeps : (m : Manager) → P m → P (expire_locked now m).1
  unfolding expire_locked
  expire_locked-keeps m v = (expire_loop-keeps (keys m.leases) m v).at

pub expire_locked-IsValid : (now : ℕ) (m : Manager) → IsValid m → IsValid (expire_locked now m).1
expire_locked-IsValid now = expire_locked-keeps IsValid now (expire_one-IsValid now)

expire_one-misses :
    (now id k : ℕ) (m : Manager)
    → IsValid m × (lookup id m.leases ≡ none)
    → IsValid (expire_one now k m).1 × (lookup id (expire_one now k m).1.leases ≡ none)
expire_one-misses now id k m (v, gone) = (expire_one-IsValid now k m v, still)
  where
    still : lookup id (expire_one now k m).1.leases ≡ none
    still = elim (Option-cases (lookup k m.leases)) [
      | inl missing ↦ rw (expire_one-missing now k m missing) gone
      | inr (l, at) ↦ elim (Bool-cases (is_over now l)) [
        | inl over ↦
            let lives : is_active l.status ≡ true = ground arith in
            let (d, there, names) = v.named k l at lives in
            let own = v.lease_id k l at in
            rw
              (expire_one-over now k m l d at over there
                (holds-some _ _ (names ∙ ap some (sym own))))
              (lookup-insert_ne l.id id (ended expired now l) m.leases
                  (λ same. cc (sym gone ∙ ap (λ (i : ℕ). lookup i m.leases) (sym same ∙ own) ∙ at))
                ∙ gone)
        | inr live ↦ rw (expire_one-live now k m l at live) gone
      ]
    ]

-- A lease id that is not in use stays so while leases expire.
pub expire_locked-misses :
    (now id : ℕ) (m : Manager)
    → IsValid m
    → lookup id m.leases ≡ none
    → lookup id (expire_locked now m).1.leases ≡ none
expire_locked-misses now id m v gone =
    (expire_locked-keeps (λ n. IsValid n × (lookup id n.leases ≡ none)) now
      (expire_one-misses now id) m (v, gone)).1

-- Expiring leases keeps the manager valid.
pub expire_leases-IsValid :
    (now : Option DateTime) (clock : ℕ) (m : Manager)
    → IsValid m
    → IsValid (expire_leases now clock m).1
unfolding expire_leases
expire_leases-IsValid now clock m v =
    (bind-lift {Post = Keeps} _ _ m (λ _ _. v)
      λ current _. record { at = expire_locked-IsValid current m v }).at

beaten-keeps :
    (now : ℕ) (d : Device)
    → is_some d.active_lease_id ≡ is_working d.status
    → ((beaten now d).id ≡ d.id)
      × ((beaten now d).active_lease_id ≡ d.active_lease_id)
      × (is_some (beaten now d).active_lease_id ≡ is_working (beaten now d).status)
unfolding beaten
beaten-keeps now d w = ground arith

maintained-keeps :
    (window now : ℕ) (on : Bool) (d : Device)
    → d.active_lease_id ≡ none
    → ((maintained window now on d).id ≡ d.id)
      × ((maintained window now on d).active_lease_id ≡ d.active_lease_id)
      × (is_some (maintained window now on d).active_lease_id
          ≡ is_working (maintained window now on d).status)
unfolding maintained
maintained-keeps window now on d free = ground arith

pub rewrite_device :
    (m : Manager) (d e : Device) (k : ℕ)
    → IsValid m
    → lookup k m.devices ≡ some d
    → (e.id ≡ d.id)
      × (e.active_lease_id ≡ d.active_lease_id)
      × (is_some e.active_lease_id ≡ is_working e.status)
    → IsValid (put_device e m)
rewrite_device m d e k v at (same_id, same, works) =
    keep_device-IsValid m d e v
      (ap (λ (i : ℕ). lookup i m.devices) (same_id ∙ v.device_id k d at) ∙ at) same works

pub heartbeat-IsValid :
    (id : ℕ) (agent : String) (now : Option DateTime) (clock : ℕ) (m : Manager)
    → IsValid m
    → IsValid (heartbeat id agent now clock m).1
unfolding heartbeat
heartbeat-IsValid id agent now clock m v =
    (bind-lift {Post = Keeps} _ _ m (λ _ _. v)
      λ current _.
        bind-find _ _ _ m (λ _. v)
          λ d at.
            bind-lift _ _ m (λ _ _. v)
              λ same _.
                bind-raise_if _ _ _ m (λ _. v)
                  λ _.
                    let kept =
                      rewrite_device m d (beaten current d) id v at
                        (beaten-keeps current d (v.working id d at)) in
                    bind-modify _ _ m (bind-gets _ _ _ (Holds-pure _ _ kept))).at

-- A change of maintenance keeps the manager valid unless it is the end of the maintenance of a
-- device that holds a lease.
pub set_maintenance-IsValid :
    (id : ℕ) (on : Bool) (now : Option DateTime) (clock : ℕ) (m : Manager)
    → IsValid m
    → (on ≡ false → (d : Device) → lookup id m.devices ≡ some d → d.active_lease_id ≡ none)
    → IsValid (set_maintenance id on now clock m).1
unfolding set_maintenance
set_maintenance-IsValid id on now clock m v free =
    (bind-lift {Post = Keeps} _ _ m (λ _ _. v)
      λ current _.
        bind-find _ _ _ m (λ _. v)
          λ d at.
            bind-raise_if _ _ _ m (λ _. v)
              λ allowed. bind-gets _ _ m (
                bind-modify _ _ m (
                  Holds-pure _ _ (
                    rewrite_device m d (maintained m.offline_after current on d) id v at (
                      maintained-keeps m.offline_after current on d
                        (unleased on d.active_lease_id allowed λ e. free e d at)))))).at
  where
    unleased :
        (b : Bool) (o : Option ℕ) → (b && is_some o) ≡ false → (b ≡ false → o ≡ none) → o ≡ none
    unleased false o h f = f refl
    unleased true none h f = refl
    unleased true (some x) h f = absurd (cc)

pub register-IsValid :
    (host : Host) (name agent kind platform : String) (cs : List String) (clock id : ℕ)
    (m : Manager)
    → IsValid m
    → lookup id m.devices ≡ none
    → IsValid (register host name agent kind platform cs clock id m).1
unfolding register
register-IsValid host name agent kind platform cs clock id m v fresh =
    (bind-gets {Post = Keeps} _ _ m (
      bind-raise_if _ _ _ m (λ _. v)
        λ _. bind-gets _ _ m (
          bind-raise_if _ _ _ m (λ _. v)
            λ _.
              bind-raise_if _ _ _ m (λ _. v)
                λ _.
                  let w =
                    add_device-IsValid m (new_device name agent kind platform cs clock id) v fresh
                      refl refl in
                  bind-modify _ _ m (bind-modify _ _ _ (Holds-pure _ _ (renamed w)))))).at
  where
    renamed :
        {m : Manager}
        → IsValid m
        → IsValid (record m { names = insert (host.casefold name) id m.names })
    renamed w = record {
      device_id = w.device_id;
      lease_id = w.lease_id;
      named = w.named;
      ruled = w.ruled;
      placed = w.placed;
      working = w.working;
      distinct = w.distinct;
    }
