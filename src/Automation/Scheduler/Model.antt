-- ===== src/Automation/Scheduler/Model.antt =====
-- The schedule part of backend/app/automation/models.py, and the queue that the scheduler is given
-- (`TaskQueuePort`, backend/app/automation/ports.py).
use qa_platform_learning.Common.Tests.{
  ℕ, ◌≡◌, ap, ◌↔◌, Bool, true, false, String, Option, List, Keyed, nat_keyed, pair_keyed, nat_beq,
  nat_beq_iff,
}
use qa_platform_learning.Common.Result.{Action}
use qa_platform_learning.Automation.Errors.{Error}

pub data MisfirePolicy : Type 0 where
  skip fire_once catch_up_limited : MisfirePolicy

pub data OverlapPolicy : Type 0 where
  forbid allow replace : OverlapPolicy

pub data FireStatus : Type 0 where
  enqueued skipped_misfire skipped_overlap : FireStatus

abbrev pub is_forbid : OverlapPolicy → Bool
is_forbid forbid = true
is_forbid _ = false

abbrev pub is_replace : OverlapPolicy → Bool
is_replace replace = true
is_replace _ = false

pub record Schedule (P : Type 0) : Type 0 where
  pub id : ℕ
  pub name : String
  pub task_type : String
  pub payload : P
  pub queue : String
  pub priority : ℕ
  pub max_attempts : ℕ
  pub cron : String
  pub timezone : String
  pub misfire_policy : MisfirePolicy
  pub overlap_policy : OverlapPolicy
  pub misfire_grace_seconds : ℕ
  pub catch_up_limit : ℕ
  pub enabled : Bool
  pub next_run_at : Option ℕ
  pub last_run_at : Option ℕ
  pub version : ℕ
  pub created_at : ℕ
  pub updated_at : ℕ

-- `ScheduleFire`
pub record Fire : Type 0 where
  pub id : ℕ
  pub schedule_id : ℕ
  pub scheduled_for : ℕ
  pub status : FireStatus
  pub task_id : Option ℕ
  pub created_at : ℕ

-- The second half of a fire's key: "cron:" with the instant, or "manual:" with the fire's id.
pub data Slot : Type 0 where
  cron_slot manual_slot : ℕ → Slot

abbrev pub same_slot : Slot → Slot → Bool
same_slot (cron_slot a) (cron_slot b) = nat_beq a b
same_slot (manual_slot a) (manual_slot b) = nat_beq a b
same_slot _ _ = false

pub same_slot_iff : (a b : Slot) → (same_slot a b ≡ true) ↔ (a ≡ b)
same_slot_iff (cron_slot a) (cron_slot b) =
    (λ h. ap cron_slot ((nat_beq_iff a b).0 h), λ e. (nat_beq_iff a b).1 (ap slot e))
  where
    slot : Slot → ℕ
    slot (cron_slot n) = n
    slot (manual_slot n) = n
same_slot_iff (manual_slot a) (manual_slot b) =
    (λ h. ap manual_slot ((nat_beq_iff a b).0 h), λ e. (nat_beq_iff a b).1 (ap slot e))
  where
    slot : Slot → ℕ
    slot (cron_slot n) = n
    slot (manual_slot n) = n
same_slot_iff (cron_slot a) (manual_slot b) = (λ h. absurd (cc (h)), λ e. absurd (cc (e)))
same_slot_iff (manual_slot a) (cron_slot b) = (λ h. absurd (cc (h)), λ e. absurd (cc (e)))

instance abbrev pub slot_keyed : Keyed Slot
slot_keyed = record { agree = same_slot; agree_iff = same_slot_iff }

-- The arguments that the scheduler gives to `enqueue`.
pub record Order (P : Type 0) : Type 0 where
  pub task_type : String
  pub payload : P
  pub queue : String
  pub priority : ℕ
  pub max_attempts : ℕ
  pub idempotency_key : String
  pub source_schedule_id : ℕ
  pub available_at : ℕ

-- `TaskQueuePort` on a queue with the states `Q`: `enqueue` returns the id of the task, and
-- `active_for_schedule` the ids of the tasks.
pub record Port (Q P : Type 0) : Type 0 where
  pub enqueue : Order P → Action Q Error ℕ
  pub active_for_schedule : ℕ → Action Q Error (List ℕ)
  pub request_cancel : ℕ → ℕ → Action Q Error Unit
