-- ===== src/Automation/Devices/Unheard.antt =====
-- A device whose agent's id is not ASCII, and the changes that leave it without a heartbeat
-- (backend/app/automation/devices.py).
pub mod Calls
use qa_platform_learning.Common.Tests.{
  ◌≢◌, ℕ, ◌≡◌, refl, sym, ap, ◌∙◌, inl, inr, Bool, true, false, String, Option, none, some, List,
  [], ◌∷◌, nat_keyed, text_keyed, arith, Bool-cases, Option-cases, nat_beq, nat_beq_iff,
}
use mathlib.Core.Option.{some-injective}
use qa_platform_learning.Common.Lists.{least_by, All, All-least_by}
use qa_platform_learning.Common.Dict.{Dict, lookup, insert, lookup-insert_self, lookup-insert_ne}
use qa_platform_learning.Common.Time.{DateTime, ℤ, to_ℕ}
use qa_platform_learning.Common.Result.{Result, ok, err, ◌>>=◌}
use qa_platform_learning.Common.Holds.{
  Holds, Holds-pure, bind-any, bind-find, bind-lift, bind-gets, bind-raise_if, bind-modify,
  Then-both,
}
use qa_platform_learning.Automation.Errors.{Error, type_error, resolve}
use qa_platform_learning.Automation.Devices.Model.{busy, is_active, Device}
use qa_platform_learning.Automation.Devices.Manager.{
  Host, Manager, is_over, freed, touched, effective_status, expire_one, expire_locked,
}
use qa_platform_learning.Automation.Devices.Operations.{
  is_ascii, compare_digest, is_candidate, candidates, precedes, beaten, maintained, new_device,
  reserve, heartbeat, get_device, set_maintenance, expire_leases, register, take_device, acquire,
  start_work, renew, release,
}
use qa_platform_learning.Automation.Devices.Invariant.{IsValid}
use qa_platform_learning.Automation.Devices.Preserved.{
  expire_one-IsValid, expire_one-over, expire_one-live, expire_one-missing, expire_locked-keeps,
  holds-some, expire_locked-IsValid,
}
use qa_platform_learning.Automation.Devices.Leasing.{Free, candidates-Free, require_lease-Found}

pub not_ascii-refuses :
    (id : ℕ) (agent : String) (now : Option DateTime) (clock current : ℕ) (m : Manager) (d : Device)
    → resolve now clock ≡ ok current
    → lookup id m.devices ≡ some d
    → is_ascii d.agent_id ≡ false
    → heartbeat id agent now clock m ≡ (err type_error, m)
unfolding heartbeat ◌>>=◌
not_ascii-refuses id agent now clock current m d time at h = rw time (rw at (rw h refl))

pub unheard-offline :
    (required : List String) (window now : ℕ) (d : Device)
    → d.last_heartbeat_at ≡ none
    → is_candidate required window now d ≡ false
unfolding is_candidate effective_status
unheard-offline required window now d never = ground arith

abbrev pub SameAgent : Device → Device → Type 0
SameAgent e d =
    (e.id ≡ d.id) × (e.agent_id ≡ d.agent_id) × (e.last_heartbeat_at ≡ d.last_heartbeat_at)

pub freed-SameAgent : (window now : ℕ) (d : Device) → SameAgent (freed window now d) d
unfolding freed
freed-SameAgent window now d = (refl, refl, refl)

pub maintained-SameAgent :
    (window now : ℕ) (on : Bool) (d : Device) → SameAgent (maintained window now on d) d
unfolding maintained
maintained-SameAgent window now on d = (refl, refl, refl)

pub beaten-id : (now : ℕ) (d : Device) → (beaten now d).id ≡ d.id
unfolding beaten
beaten-id now d = ground arith

module _ (agent : String) (id : ℕ) where
  -- The device `id` is there, is this agent's, and never had a heartbeat.
  abbrev pub Unheard : Dict ℕ Device → Type 0
  Unheard ds =
      (d : Device) × (lookup id ds ≡ some d) × (d.agent_id ≡ agent) × (d.last_heartbeat_at ≡ none)

  pub insert_other-Unheard :
      (ds : Dict ℕ Device) (e : Device) → Unheard ds → e.id ≢ id → Unheard (insert e.id e ds)
  insert_other-Unheard ds e (d, at, its, never) ne =
      (d, lookup-insert_ne e.id id e ds ne ∙ at, its, never)

  -- A change to a stored device that leaves its agent and its last heartbeat.
  pub put_device-Unheard :
      (m : Manager) (k : ℕ) (d e : Device)
      → IsValid m
      → Unheard m.devices
      → lookup k m.devices ≡ some d
      → SameAgent e d
      → Unheard (insert e.id e m.devices)
  put_device-Unheard m k d e v u at (same_id, same_agent, same_beat) =
      elim (Bool-cases (nat_beq e.id id)) [
        | inl here ↦
            let own : e.id ≡ id = (nat_beq_iff e.id id).0 here in
            let (x, found, its, never) = u in
            let is_d : x ≡ d = some-injective _ _ (
              sym found
              ∙ ap (λ (i : ℕ). lookup i m.devices) (sym own ∙ same_id ∙ v.device_id k d at)
              ∙ at) in
            (
              e,
              ap (λ (i : ℕ). lookup i (insert e.id e m.devices)) (sym own)
                  ∙ lookup-insert_self e.id e m.devices,
              same_agent ∙ ap (λ (y : Device). y.agent_id) (sym is_d) ∙ its,
              same_beat ∙ ap (λ (y : Device). y.last_heartbeat_at) (sym is_d) ∙ never,
            )
        | inr other ↦
            insert_other-Unheard m.devices e u
              (λ same. cc (sym other ∙ (nat_beq_iff e.id id).1 same))
      ]

  abbrev pub Keeps : {B : Type 0} → Result Error B → Manager → Type 0
  Keeps r m = Unheard m.devices

  expire_one-Unheard :
      (now k : ℕ) (m : Manager)
      → IsValid m × Unheard m.devices
      → IsValid (expire_one now k m).1 × Unheard (expire_one now k m).1.devices
  expire_one-Unheard now k m (v, u) = (expire_one-IsValid now k m v, still)
    where
      still : Unheard (expire_one now k m).1.devices
      still = elim (Option-cases (lookup k m.leases)) [
        | inl missing ↦ rw (expire_one-missing now k m missing) u
        | inr (l, at) ↦ elim (Bool-cases (is_over now l)) [
          | inl over ↦
              let lives : is_active l.status ≡ true = ground arith in
              let (d, there, names) = v.named k l at lives in
              rw
                (expire_one-over now k m l d at over there
                  (holds-some _ _ (names ∙ ap some (sym (v.lease_id k l at)))))
                (put_device-Unheard m l.device_id d (freed m.offline_after now d) v u there
                  (freed-SameAgent m.offline_after now d))
          | inr live ↦ rw (expire_one-live now k m l at live) u
        ]
      ]

  pub expire_locked-Unheard :
      (now : ℕ) (m : Manager)
      → IsValid m
      → Unheard m.devices
      → Unheard (expire_locked now m).1.devices
  expire_locked-Unheard now m v u =
      (expire_locked-keeps (λ n. IsValid n × Unheard n.devices) now (expire_one-Unheard now) m
        (v, u)).1
