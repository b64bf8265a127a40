-- ===== src/Automation/Scheduler/Tests.antt =====
-- Tests of the scheduler on the in-memory task queue, and its theorems at concrete inputs.
use qa_platform_learning.Common.Tests.{
  ℕ, ◌+◌, ◌/◌, ◌%◌, ◌≡◌, refl, true, false, none, some, List, [], ◌∷◌, ◌++◌, arith, nat_keyed,
  text_keyed, pair_keyed,
}
use qa_platform_learning.Common.Dict.{lookup}
use qa_platform_learning.Common.Result.{ok, ◌>>=◌}
use qa_platform_learning.Common.Time.{aware}
use qa_platform_learning.Automation.Retry.{default_policy}
use qa_platform_learning.Automation.Cron.Field.{Field}
use qa_platform_learning.Automation.Cron.Expression.{
  Expression, Calendar, find_zone, matches_local, day_matches,
}
use qa_platform_learning.Automation.Cron.Search.{matches_in_zone, next_after}
use qa_platform_learning.Automation.Tasks.Model.{model_accepts}
use qa_platform_learning.Automation.Tasks.Enqueue.{enqueue}
use qa_platform_learning.Automation.Tasks.Settle.{active_for_schedule}
use qa_platform_learning.Automation.Tasks.State.{Env, empty_queue}
use qa_platform_learning.Automation.Scheduler.Model.{
  catch_up_limited, forbid, enqueued, skipped_misfire, Schedule, Fire, cron_slot, slot_keyed,
}
use qa_platform_learning.Automation.Scheduler.Policy.{apply_misfire_policy, collect_due}
use qa_platform_learning.Automation.Scheduler.Operations.{
  Scheduler, Host, tick, fire_due, enqueue_fire,
}
use qa_platform_learning.Automation.Scheduler.InMemory.{Served, in_memory_port}
use qa_platform_learning.Automation.Scheduler.Due.{
  DueUntil, Chosen, collect_due-DueUntil, misfire_divides,
}
use qa_platform_learning.Automation.Scheduler.Kept.{tick_keeps_fires}
use qa_platform_learning.Automation.Scheduler.Settled.{Advanced, fire_due_advances}

abbrev queue_env : Env ℕ
queue_env = record {
  policy = default_policy;
  entropy = λ _. 500_000;
  encode_request = λ r. some r.task_type;
  encode_result = λ _. some "{}";
  sha256 = λ s. s;
  empty_result = 0;
}

-- A zone whose months all have 28 days.
abbrev plain : Calendar Unit
plain = record {
  zone_info = λ _. ok tt;
  astimezone = λ _ t. some (record {
    minute = t / 60_000_000 % 60;
    hour = t / 3_600_000_000 % 24;
    day = 1 + t / 86_400_000_000 % 28;
    month = 1;
    weekday = t / 86_400_000_000 % 7;
  });
}

abbrev host : Host (Served ℕ) ℕ Unit
host = record {
  port = in_memory_port queue_env (λ n. n) (λ n. n + 100);
  calendar = plain;
  unicode = record { is_space = λ _. false; digit = λ _. none };
  uuid = λ n. n;
  cron_key = λ id at. "cron";
  manual_key = λ id n. "manual";
}

abbrev every : Field
every = record { values = 0 ∷ 1 ∷ 2 ∷ 3 ∷ 4 ∷ 5 ∷ 6 ∷ []; wildcard = true }

abbrev minutely : Expression
minutely = record {
  minute = every;
  hour = every;
  day_of_month = every;
  month = every;
  day_of_week = every;
}

abbrev nightly : Schedule ℕ
nightly = record {
  id = 1;
  name = "nightly";
  task_type = "build";
  payload = 7;
  queue = "default";
  priority = 50;
  max_attempts = 3;
  cron = "* * * * *";
  timezone = "UTC";
  misfire_policy = catch_up_limited;
  overlap_policy = forbid;
  misfire_grace_seconds = 60;
  catch_up_limit = 1;
  enabled = true;
  next_run_at = some 60_000_000;
  last_run_at = none;
  version = 0;
  created_at = 0;
  updated_at = 0;
}

abbrev old_fire : Fire
old_fire = record {
  id = 9;
  schedule_id = 1;
  scheduled_for = 0;
  status = enqueued;
  task_id = some 3;
  created_at = 0;
}

abbrev state : Scheduler (Served ℕ) ℕ
state = record {
  queue = record { queue = empty_queue; calls = 0 };
  schedules = (1, nightly) ∷ [];
  expressions = (1, minutely) ∷ [];
  fires = ((1, cron_slot 0), old_fire) ∷ [];
  max_due = 10;
  drawn = 0;
}

two_due :
    collect_due plain minutely "UTC" 130_000_000 10 60_000_000
    ≡ ok (60_000_000 ∷ 120_000_000 ∷ [], 180_000_000)
unfolding collect_due next_after find_zone matches_in_zone matches_local day_matches
two_due = refl

collect_due-DueUntil_example :
    DueUntil 130_000_000 10 60_000_000 (60_000_000 ∷ 120_000_000 ∷ []) 180_000_000
collect_due-DueUntil_example =
    collect_due-DueUntil plain minutely "UTC" 130_000_000 10 60_000_000 180_000_000
      (60_000_000 ∷ 120_000_000 ∷ []) two_due

one_chosen : apply_misfire_policy nightly (10 ∷ 20 ∷ 30 ∷ []) 40 ≡ ok (30 ∷ [], 10 ∷ 20 ∷ [])
unfolding apply_misfire_policy
one_chosen = refl

misfire_divides_example :
    (◌++◌ {A = ℕ} (10 ∷ 20 ∷ []) (30 ∷ []) ≡ 10 ∷ 20 ∷ 30 ∷ [])
    × Chosen catch_up_limited 60 1 40 (30 ∷ []) (10 ∷ 20 ∷ [])
misfire_divides_example =
    misfire_divides nightly 40 0 10 (20 ∷ 30 ∷ []) (30 ∷ []) (10 ∷ 20 ∷ []) (ground arith)
      (omega arith) one_chosen

tick_keeps_fires_example :
    lookup (1, cron_slot 0) (tick host (some (aware 130_000_000)) 0 state).1.fires ≡ some old_fire
tick_keeps_fires_example =
    tick_keeps_fires host (1, cron_slot 0) old_fire (some (aware 130_000_000)) 0 state refl

abbrev fired : List Fire
fired =
    record {
      id = 0;
      schedule_id = 1;
      scheduled_for = 60_000_000;
      status = skipped_misfire;
      task_id = none;
      created_at = 130_000_000;
    }
    ∷ record {
      id = 1;
      schedule_id = 1;
      scheduled_for = 120_000_000;
      status = enqueued;
      task_id = some 101;
      created_at = 130_000_000;
    }
    ∷ []

abbrev state_after : Scheduler (Served ℕ) ℕ
state_after = (fire_due host nightly 130_000_000 state).1

nightly_fires : fire_due host nightly 130_000_000 state ≡ (ok fired, state_after)
unfolding fire_due collect_due next_after find_zone matches_in_zone matches_local day_matches
    apply_misfire_policy ◌>>=◌ enqueue_fire active_for_schedule enqueue model_accepts
nightly_fires = refl

fire_due_advances_example : Advanced host 1 130_000_000 state_after
fire_due_advances_example =
    fire_due_advances host nightly 60_000_000 130_000_000 state state_after fired refl (omega arith)
      nightly_fires
