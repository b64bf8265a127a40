-- ===== src/Automation/Devices/Operations.antt =====
-- The methods of `InMemoryDeviceManager`, backend/app/automation/devices.py. A call runs under the
-- manager's lock, so it is one step; the clock's reading, fresh ids and fresh tokens are arguments.
use qa_platform_learning.Common.Tests.{
  ℕ, ◌+◌, Bool, true, not, ◌&&◌, ◌||◌, String, Option, none, some, List, [], ◌∷◌, ltb, is_some,
  is_blank, if◌then◌else◌, nat_keyed, text_keyed, ◌==◌,
}
use Prim.Native.Char.{code}
use qa_platform_learning.Common.Texts.{text_before}
use qa_platform_learning.Common.Lists.{any, all, select, least_by}
use qa_platform_learning.Common.Dict.{values, insert, contains}
use qa_platform_learning.Common.Result.{
  Result, ok, err, Action, pure, gets, lift, raise_if, modify, ◌>>=◌, ◌>>◌,
}
use qa_platform_learning.Common.Time.{DateTime, ℤ, below_one, to_ℕ, seconds}
use qa_platform_learning.Automation.Errors.{
  Error, conflict, lease_error, validation, model_invalid, type_error, resolve,
}
use qa_platform_learning.Automation.Devices.Model.{
  offline, idle, reserved, busy, maintenance, active, released, is_maintenance, is_idle, Device,
  Lease, Claimed, model_accepts,
}
use qa_platform_learning.Automation.Devices.Manager.{
  Host, Manager, effective_status, available_status, effective_copy, put_device, put_lease, touched,
  freed, ended, expire_locked, require_device, require_lease,
}

-- Only ASCII texts may be compared by `hmac.compare_digest`; others raise a TypeError.
unfoldable pub is_ascii : String → Bool
is_ascii String.[] = true
is_ascii (String.◌∷◌ c s) = ltb (code c) 128 && is_ascii s

abbrev pub compare_digest : String → String → Result Error Bool
compare_digest s t = if is_ascii s && is_ascii t then ok (s == t) else err type_error

-- `Device(...)` in `register`.
abbrev pub new_device :
    String → String → String → String → List String → (clock fresh_id : ℕ) → Device
new_device name agent_id kind platform capabilities clock fresh_id = record {
  id = fresh_id;
  name = name;
  kind = kind;
  platform = platform;
  capabilities = capabilities;
  agent_id = agent_id;
  enabled = true;
  status = offline;
  last_heartbeat_at = none;
  active_lease_id = none;
  version = 0;
  created_at = clock;
  updated_at = clock;
}

-- `heartbeat` on a device whose agent it is.
unfoldable pub beaten : ℕ → Device → Device
beaten now d =
    let u = record d { last_heartbeat_at = some now } in
    touched now (
      if not (is_maintenance d.status) && not (is_some d.active_lease_id)
      then record u { status = if d.enabled then idle else offline }
      else u)

unfoldable pub heartbeat : ℕ → String → Option DateTime → ℕ → Action Manager Error Device
unfolding beaten
heartbeat device_id agent_id now clock = do
  current ← lift (resolve now clock)
  d ← require_device device_id
  same ← lift (compare_digest d.agent_id agent_id)
  raise_if (not same) lease_error
  modify (put_device (beaten current d))
  window ← gets (λ m. m.offline_after)
  pure (effective_copy window (beaten current d) current)

unfoldable pub get_device : ℕ → Option DateTime → ℕ → Action Manager Error Device
get_device device_id now clock = do
  current ← lift (resolve now clock)
  _ ← expire_locked current
  d ← require_device device_id
  window ← gets (λ m. m.offline_after)
  pure (effective_copy window d current)

-- A device that `acquire` may lease.
unfoldable pub is_candidate : List String → ℕ → ℕ → Device → Bool
is_candidate required window now d =
    d.enabled
    && is_idle (effective_status window d now)
    && all (λ c. any (λ o. o == c) d.capabilities) required

unfoldable pub candidates : List String → ℕ → Manager → List Device
unfolding is_candidate
candidates required now m = select (is_candidate required m.offline_after now) (values m.devices)

-- `set_maintenance` on a device.
unfoldable pub maintained : ℕ → ℕ → Bool → Device → Device
unfolding available_status
maintained window now on d =
    touched now (record d { status = if on then maintenance else available_status window d now })

unfoldable pub set_maintenance : ℕ → Bool → Option DateTime → ℕ → Action Manager Error Device
unfolding maintained
set_maintenance device_id on now clock = do
  current ← lift (resolve now clock)
  d ← require_device device_id
  raise_if (on && is_some d.active_lease_id) conflict
  window ← gets (λ m. m.offline_after)
  modify (put_device (maintained window current on d))
  pure (effective_copy window (maintained window current on d) current)

unfoldable pub expire_leases : Option DateTime → ℕ → Action Manager Error (List Lease)
expire_leases now clock = do current ← lift (resolve now clock); expire_locked current

-- The device that `acquire` reserves, and the lease that `renew` extends.
abbrev pub reserve : ℕ → ℕ → Device → Device
reserve lease_id now d =
    touched now (record d { active_lease_id = some lease_id; status = reserved })

abbrev pub renewed : ℕ → ℕ → Lease → Lease
renewed now lease_seconds l = record l {
  expires_at = now + seconds lease_seconds;
  version = l.version + 1;
}

module _ (host : Host) where
  unfoldable pub register :
      String
      → String
      → String
      → String
      → List String
      → (clock fresh_id : ℕ) → Action Manager Error Device
  register name agent_id kind platform capabilities clock fresh_id = do
    taken ← gets (λ m. contains (host.casefold name) m.names)
    raise_if taken conflict
    known ← gets (λ m. any (λ (d : Device). d.agent_id == agent_id) (values m.devices))
    raise_if known conflict
    raise_if (not (model_accepts name kind platform capabilities agent_id)) model_invalid
    modify (put_device (new_device name agent_id kind platform capabilities clock fresh_id))
    modify λ m. record m { names = insert (host.casefold name) fresh_id m.names }
    pure (new_device name agent_id kind platform capabilities clock fresh_id)

  -- The order of `acquire`'s candidates: by folded name and id.
  unfoldable pub precedes : Device → Device → Bool
  precedes a b =
      text_before (host.casefold a.name) (host.casefold b.name)
      || (host.casefold a.name == host.casefold b.name && ltb a.id b.id)

  -- `DeviceLease(...)` in `acquire`.
  abbrev pub new_lease : ℕ → String → String → String → ℕ → ℕ → ℕ → Lease
  new_lease device_id task_id owner token lease_seconds now fresh_id = record {
    id = fresh_id;
    device_id = device_id;
    task_id = task_id;
    owner = owner;
    token_hash = host.sha256 token;
    status = active;
    acquired_at = now;
    expires_at = now + seconds lease_seconds;
    released_at = none;
    version = 0;
  }

  -- `acquire` from the list of the candidates.
  unfoldable pub take_device :
      String → String → String → ℕ → ℕ → ℕ → List Device → Action Manager Error (Option Claimed)
  unfolding precedes
  take_device task_id owner token lease_seconds now fresh_id [] = pure none
  take_device task_id owner token lease_seconds now fresh_id (d ∷ ds) = do
    let chosen = least_by precedes d ds
    let l = new_lease chosen.id task_id owner token lease_seconds now fresh_id
    modify (put_lease l)
    modify (put_device (reserve fresh_id now chosen))
    pure (some (record { device = reserve fresh_id now chosen; lease = l; lease_token = token }))

  unfoldable pub acquire :
      String
      → String
      → List String
      → ℤ
      → Option DateTime
      → (clock fresh_id : ℕ) → String
      → Action Manager Error (Option Claimed)
  unfolding take_device candidates
  acquire task_id owner required lease_seconds now clock fresh_id token = do
    raise_if (is_blank task_id || is_blank owner || below_one lease_seconds) validation
    current ← lift (resolve now clock)
    _ ← expire_locked current
    free ← gets (candidates required current)
    take_device task_id owner token (to_ℕ lease_seconds) current fresh_id free

  unfoldable pub start_work :
      ℕ → String → String → Option DateTime → ℕ → Action Manager Error Claimed
  start_work lease_id owner token now clock = do
    current ← lift (resolve now clock)
    held ← require_lease host lease_id owner token current
    modify (put_device (touched current (record (held.1) { status = busy })))
    pure (record {
      device = touched current (record (held.1) { status = busy });
      lease = held.0;
      lease_token = token;
    })

  unfoldable pub renew : ℕ → String → String → ℤ → Option DateTime → ℕ → Action Manager Error Lease
  renew lease_id owner token lease_seconds now clock = do
    raise_if (below_one lease_seconds) validation
    current ← lift (resolve now clock)
    held ← require_lease host lease_id owner token current
    modify (put_lease (renewed current (to_ℕ lease_seconds) held.0))
    pure (renewed current (to_ℕ lease_seconds) held.0)

  unfoldable pub release : ℕ → String → String → Option DateTime → ℕ → Action Manager Error Lease
  unfolding freed
  release lease_id owner token now clock = do
    current ← lift (resolve now clock)
    held ← require_lease host lease_id owner token current
    window ← gets (λ m. m.offline_after)
    modify (put_lease (ended released current held.0))
    modify (put_device (freed window current held.1))
    pure (ended released current held.0)
