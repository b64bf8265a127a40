-- ===== src/Automation/Devices/Access.antt =====
-- Who may use a lease of a device, backend/app/automation/devices.py.
use qa_platform_learning.Common.Tests.{
  ℕ, suc, ◌≡◌, ◌≢◌, ◌≤◌, refl, ap, ◌∙◌, ◌⊎◌, inl, inr, false, String, Option, none, some, List, [],
  ◌∷◌, arith, nat_keyed, text_keyed,
}
use qa_platform_learning.Common.Dict.{lookup, insert, lookup-insert_self}
use qa_platform_learning.Common.Time.{DateTime, ℤ, pos, to_ℕ}
use qa_platform_learning.Common.Result.{Result, ok, err, find, raise_if, ◌>>=◌}
use qa_platform_learning.Common.Holds.{
  Holds, Holds-pure, bind-lift, bind-gets, bind-raise_if, bind-modify, bind-whatever,
}
use qa_platform_learning.Automation.Errors.{Error, lease_error, resolve}
use qa_platform_learning.Automation.Devices.Model.{is_active, released, Device, Lease, Claimed}
use qa_platform_learning.Automation.Devices.Manager.{
  Host, Manager, ended, lease_holds, require_lease,
}
use qa_platform_learning.Automation.Devices.Operations.{
  candidates, take_device, acquire, start_work, renew, release,
}
use qa_platform_learning.Automation.Devices.Invariant.{IsValid}
use qa_platform_learning.Automation.Devices.Leasing.{require_lease-Found}
use mathlib.Core.Path.{subst}
use text.Mathlib.TextEquality.{eq_iff}

module _ (host : Host) where
  -- Every use of the lease `id` with this owner and token is refused, and changes nothing; a
  -- renewal asks for `more + 1` seconds.
  abbrev pub Refused : ℕ → String → String → ℕ → Option DateTime → ℕ → Manager → Type 0
  Refused id owner token more now clock m =
      (start_work host id owner token now clock m ≡ (err lease_error, m))
      × (renew host id owner token (pos (suc more)) now clock m ≡ (err lease_error, m))
      × (release host id owner token now clock m ≡ (err lease_error, m))

  require_lease-refuses :
      (id : ℕ) (owner token : String) (current : ℕ) (m : Manager) (l : Lease)
      → lookup id m.leases ≡ some l
      → lease_holds host l owner token current ≡ false
      → require_lease host id owner token current m ≡ (err lease_error, m)
  unfolding require_lease ◌>>=◌
  require_lease-refuses id owner token current m l at unfit =
      rw (at, require_lease, ◌>>=◌, find) (rw (unfit, raise_if) refl)

  unfit_refuses :
      (id : ℕ) (owner token : String) (more : ℕ) (now : Option DateTime) (clock current : ℕ)
      (m : Manager) (l : Lease)
      → resolve now clock ≡ ok current
      → lookup id m.leases ≡ some l
      → lease_holds host l owner token current ≡ false
      → Refused id owner token more now clock m
  unfolding start_work renew release ◌>>=◌
  unfit_refuses id owner token more now clock current m l time at unfit =
      let e = require_lease-refuses id owner token current m l at unfit in
      (rw time (rw e refl), rw time (rw e refl), rw time (rw e refl))

  -- What an acquisition gives: a stored lease for this owner and token.
  Given : (owner token : String) → Result Error (Option Claimed) → Manager → Type 0
  Given owner token (err e) m = Unit
  Given owner token (ok none) m = Unit
  Given owner token (ok (some c)) m =
      (lookup c.lease.id m.leases ≡ some c.lease)
      × (c.lease.owner ≡ owner)
      × (c.lease.token_hash ≡ host.sha256 token)

  take_device-gives :
      (task owner token : String) (secs now id : ℕ) (ds : List Device) (m : Manager)
      → Holds (Given owner token) (take_device host task owner token secs now id ds) m
  unfolding take_device Given
  take_device-gives task owner token secs now id [] m = Holds-pure _ m tt
  take_device-gives task owner token secs now id (d ∷ ds) m =
      bind-modify _ _ m
        (bind-modify _ _ _ (Holds-pure _ _ (lookup-insert_self id _ m.leases, refl, refl)))

  acquire-gives :
      (task owner : String) (required : List String) (secs : ℤ) (now : Option DateTime)
      (clock id : ℕ) (token : String) (m : Manager)
      → Holds (Given owner token) (acquire host task owner required secs now clock id token) m
  unfolding acquire Given
  acquire-gives task owner required secs now clock id token m =
      bind-raise_if _ _ _ m (λ _. tt)
        λ _.
          bind-lift _ _ m (λ _ _. tt)
            λ current _.
              bind-whatever _ _ m (λ _ _. tt)
                λ _ t. bind-gets _ _ t (
                  take_device-gives task owner token (to_ℕ secs) current id
                    (candidates required current t) t)

  -- Another owner, another token, or a time at which the lease has run out.
  abbrev pub Stranger : (owner token : String) → ℕ → (other other_token : String) → ℕ → Type 0
  Stranger owner token expires_at other other_token current =
      (other ≢ owner) ⊎ (host.sha256 other_token ≢ host.sha256 token) ⊎ (expires_at ≤ current)

  lease_holds-Stranger :
      (l : Lease) (owner token other other_token : String) (current : ℕ)
      → l.owner ≡ owner
      → l.token_hash ≡ host.sha256 token
      → Stranger owner token l.expires_at other other_token current
      → lease_holds host l other other_token current ≡ false
  unfolding lease_holds
  lease_holds-Stranger l owner token other other_token current own held (inl apart) =
      ground (arith, eq_iff l.owner other)
  lease_holds-Stranger l owner token other other_token current own held (inr (inl apart)) =
      ground (arith, eq_iff l.token_hash (host.sha256 other_token))
  lease_holds-Stranger l owner token other other_token current own held (inr (inr over)) =
      ground arith

  -- A lease that was acquired is its owner's alone: in the state that `acquire` leaves, a call with
  -- another owner's name, with a token of another hash, or at a time when the lease has run out,
  -- starts no work, renews nothing and releases nothing: it raises a lease error and changes
  -- nothing. The time of the call can be read, and a renewal asks for at least one second.
  pub acquired_lease_private :
      (task owner : String) (required : List String) (secs : ℤ) (now : Option DateTime)
      (clock id : ℕ) (token : String) (m n : Manager) (c : Claimed)
      → acquire host task owner required secs now clock id token m ≡ (ok (some c), n)
      → (other other_token : String) (more : ℕ) (later : Option DateTime) (later_clock current : ℕ)
      → resolve later later_clock ≡ ok current
      → Stranger owner token c.lease.expires_at other other_token current
      → Refused c.lease.id other other_token more later later_clock n
  unfolding Given
  acquired_lease_private task owner required secs now clock id token m n c e other other_token more
        later later_clock current time stranger =
      let (at, own, held) =
        subst (λ (p : Result Error (Option Claimed) × Manager). Given owner token p.0 p.1) e
          (acquire-gives task owner required secs now clock id token m).at in
      unfit_refuses c.lease.id other other_token more later later_clock current n c.lease time at
        (lease_holds-Stranger c.lease owner token other other_token current own held stranger)

  -- What a release leaves: the lease has ended.
  ReleaseEnds : ℕ → Result Error Lease → Manager → Type 0
  ReleaseEnds id (err e) m = Unit
  ReleaseEnds id (ok l) m = (lookup id m.leases ≡ some l) × (is_active l.status ≡ false)

  release-ends :
      (id : ℕ) (owner token : String) (now : Option DateTime) (clock : ℕ) (m : Manager)
      → IsValid m
      → Holds (ReleaseEnds id) (release host id owner token now clock) m
  unfolding release ReleaseEnds
  release-ends id owner token now clock m v =
      bind-lift _ _ m (λ _ _. tt)
        λ current _.
          require_lease-Found host _ id owner token current m (λ _. tt)
            λ l d at rightful there names. bind-gets _ _ m (
              bind-modify _ _ m (
                bind-modify _ _ _ (
                  Holds-pure _ _ (
                    ap (λ (j : ℕ). lookup id (insert j (ended released current l) m.leases))
                          (v.lease_id id l at)
                        ∙ lookup-insert_self id (ended released current l) m.leases,
                    refl,
                  ))))

  inactive_refuses :
      (l : Lease) (owner token : String) (now : ℕ)
      → is_active l.status ≡ false
      → lease_holds host l owner token now ≡ false
  unfolding lease_holds
  inactive_refuses l owner token now h = rw h refl

  -- After a lease was released, in a valid manager, its id lets no one start work, renew or
  -- release any more, with any token and at any time.
  pub released_lease_refuses :
      (id : ℕ) (owner token : String) (now : Option DateTime) (clock : ℕ) (m n : Manager)
      (l : Lease)
      → IsValid m
      → release host id owner token now clock m ≡ (ok l, n)
      → (other other_token : String) (more : ℕ) (later : Option DateTime) (later_clock current : ℕ)
      → resolve later later_clock ≡ ok current
      → Refused id other other_token more later later_clock n
  unfolding ReleaseEnds
  released_lease_refuses id owner token now clock m n l v e other other_token more later later_clock
        current time =
      let (at, over) =
        subst (λ (p : Result Error Lease × Manager). ReleaseEnds id p.0 p.1) e
          (release-ends id owner token now clock m v).at in
      unfit_refuses id other other_token more later later_clock current n l time at
        (inactive_refuses l other other_token current over)
