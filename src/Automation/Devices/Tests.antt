-- ===== src/Automation/Devices/Tests.antt =====
-- Tests of the device manager, and its theorems at concrete inputs.
use qa_platform_learning.Common.Tests.{
  ℕ, ◌≡◌, ◌≢◌, refl, inl, arith, String, true, false, none, some, [], ◌∷◌, nat_keyed, text_keyed,
}
use text.Mathlib.TextEquality.{eq_iff}
use qa_platform_learning.Common.Lists.{least_by}
use qa_platform_learning.Common.Dict.{lookup}
use qa_platform_learning.Common.Result.{ok, ◌>>=◌}
use qa_platform_learning.Common.Time.{pos, aware}
use qa_platform_learning.Automation.Devices.Model.{
  reserved, maintenance, released, is_maintenance, Device, Lease, model_accepts,
}
use qa_platform_learning.Automation.Devices.Manager.{
  Host, Manager, is_over, effective_status, lease_holds, require_lease, expire_locked, ended,
}
use qa_platform_learning.Automation.Devices.Operations.{
  is_ascii, is_candidate, new_device, new_lease, heartbeat, set_maintenance, register, acquire,
  release,
}
use qa_platform_learning.Automation.Devices.Invariant.{IsValid}
use qa_platform_learning.Automation.Devices.History.{
  Run, start, call, register_call, heartbeat_call, acquire_call, after, empty_manager,
  device-Run-IsValid, device_lease_exclusive,
}
use qa_platform_learning.Automation.Devices.Maintenance.{
  InMaintenance, maintenance_stays, maintenance_frees_leased,
}
use qa_platform_learning.Automation.Devices.Foreign.{IsUnusable, registered_not_ascii}
use qa_platform_learning.Automation.Devices.Expiry.{expire_leaves_none}
use qa_platform_learning.Automation.Devices.Access.{
  Refused, acquired_lease_private, released_lease_refuses,
}

abbrev host : Host
host = record { casefold = λ s. s; sha256 = λ s. s }

abbrev window : ℕ
window = 60_000_000

-- One device registers, reports, and is leased.
abbrev registered : Manager
registered =
    after host (register_call "phone" "agent" "mobile" "android" ("usb" ∷ []) 0 1)
      (empty_manager window)

abbrev alive : Manager
alive = after host (heartbeat_call 1 "agent" (some (aware 100)) 0) registered

abbrev leased : Manager
leased =
    after host (acquire_call "task" "worker" ("usb" ∷ []) (pos 30) (some (aware 200)) 0 7 "token")
      alive

leased-Run : Run host (empty_manager window) leased
unfolding after register heartbeat acquire model_accepts ◌>>=◌ is_ascii
leased-Run =
    call
      (call (call start (register_call "phone" "agent" "mobile" "android" ("usb" ∷ []) 0 1) refl)
        (heartbeat_call 1 "agent" (some (aware 100)) 0) tt)
      (acquire_call "task" "worker" ("usb" ∷ []) (pos 30) (some (aware 200)) 0 7 "token") refl

abbrev phone : Device
phone = record {
  id = 1;
  name = "phone";
  kind = "mobile";
  platform = "android";
  capabilities = "usb" ∷ [];
  agent_id = "agent";
  enabled = true;
  status = reserved;
  last_heartbeat_at = some 100;
  active_lease_id = some 7;
  version = 2;
  created_at = 0;
  updated_at = 200;
}

abbrev lease : Lease
lease = new_lease host 1 "task" "worker" "token" 30 200 7

leased_holds : lookup 7 leased.leases ≡ some lease
unfolding after register heartbeat acquire model_accepts ◌>>=◌ expire_locked is_ascii
    effective_status least_by
leased_holds = refl

leased_device : lookup 1 leased.devices ≡ some phone
unfolding after register heartbeat acquire model_accepts ◌>>=◌ expire_locked is_ascii
    effective_status least_by
leased_device = refl

device-Run-IsValid_example : IsValid leased
device-Run-IsValid_example = device-Run-IsValid host window leased leased-Run

device_lease_exclusive_example : ◌≡◌ {A = ℕ} 7 7
device_lease_exclusive_example =
    device_lease_exclusive host window leased 7 7 lease lease leased-Run leased_holds leased_holds
      refl refl refl

expire_leaves_none_example :
    IsValid (expire_locked 50_000_000 leased).1
    × ((j : ℕ) (l : Lease)
        → lookup j (expire_locked 50_000_000 leased).1.leases ≡ some l
        → is_over 50_000_000 l ≡ false)
expire_leaves_none_example =
    expire_leaves_none 50_000_000 leased (device-Run-IsValid host window leased leased-Run)

acquire_gives :
    acquire host "task" "worker" ("usb" ∷ []) (pos 30) (some (aware 200)) 0 7 "token" alive
    ≡ (ok (some (record { device = phone; lease = lease; lease_token = "token" })), leased)
unfolding after register heartbeat acquire model_accepts ◌>>=◌ expire_locked is_ascii
    effective_status least_by
acquire_gives = refl

other_owner : ◌≢◌ {A = String} "other" "worker"
other_owner e = ground (arith, eq_iff "other" "worker", e)

-- The right token, in the hands of another owner.
acquired_lease_private_example : Refused host 7 "other" "token" 9 (some (aware 300)) 0 leased
acquired_lease_private_example =
    acquired_lease_private host "task" "worker" ("usb" ∷ []) (pos 30) (some (aware 200)) 0 7 "token"
      alive leased (record { device = phone; lease = lease; lease_token = "token" }) acquire_gives
      "other" "token" 9 (some (aware 300)) 0 300 refl (inl other_owner)

abbrev given_back : Manager
given_back = (release host 7 "worker" "token" (some (aware 300)) 0 leased).1

release_gives :
    release host 7 "worker" "token" (some (aware 300)) 0 leased
    ≡ (ok (ended released 300 lease), given_back)
unfolding after register heartbeat acquire release model_accepts lease_holds ◌>>=◌ expire_locked
    is_ascii effective_status least_by require_lease
release_gives = refl

released_lease_refuses_example : Refused host 7 "worker" "token" 9 (some (aware 400)) 0 given_back
released_lease_refuses_example =
    released_lease_refuses host 7 "worker" "token" (some (aware 300)) 0 leased given_back
      (ended released 300 lease) (device-Run-IsValid host window leased leased-Run) release_gives
      "worker" "token" 9 (some (aware 400)) 0 400 refl

maintenance_frees_leased_example :
    (e : Device) × (lookup 1 (set_maintenance 1 false (some (aware 300)) 0 leased).1.devices
      ≡ some e)
    × (e.active_lease_id ≡ some 7)
    × (is_candidate [] leased.offline_after 300 e ≡ true)
unfolding after register heartbeat acquire model_accepts ◌>>=◌ expire_locked is_ascii
    effective_status least_by
maintenance_frees_leased_example =
    maintenance_frees_leased 1 7 (some (aware 300)) 0 300 leased phone refl leased_device refl refl
      refl refl refl

abbrev tablet : Device
tablet = record phone { active_lease_id = none; status = maintenance }

abbrev serviced : Manager
serviced = record { devices = (1, tablet) ∷ []; leases = []; names = []; offline_after = window }

maintenance_stays_example :
    (e : Device) × ((set_maintenance 1 false (some (aware 300)) 0 serviced).0 ≡ ok e)
    × (is_maintenance e.status ≡ true)
    × InMaintenance 1 (set_maintenance 1 false (some (aware 300)) 0 serviced).1
maintenance_stays_example =
    maintenance_stays 1 (some (aware 300)) 0 300 serviced tablet refl refl refl refl

abbrev abroad : Manager
abroad = after host (register_call "phone" "agënt" "mobile" "android" [] 0 1) (empty_manager window)

abbrev foreign : Device
foreign = new_device "phone" "agënt" "mobile" "android" [] 0 1

foreign_registers :
    register host "phone" "agënt" "mobile" "android" [] 0 1 (empty_manager window)
    ≡ (ok foreign, abroad)
unfolding after register model_accepts ◌>>=◌
foreign_registers = refl

abbrev abroad_later : Manager
abroad_later = after host (heartbeat_call 1 "agënt" (some (aware 100)) 0) abroad

-- The device is registered, and reports once.
registered_not_ascii_example :
    IsUnusable host "agënt" 1 "agënt" [] (some (aware 300)) 0 300 abroad_later
unfolding is_ascii
registered_not_ascii_example =
    registered_not_ascii host "agënt" 1 "phone" "mobile" "android" [] window 0
      (empty_manager window) abroad abroad_later foreign refl start refl foreign_registers
      (call start (heartbeat_call 1 "agënt" (some (aware 100)) 0) tt) "agënt" [] (some (aware 300))
      0 300 refl
