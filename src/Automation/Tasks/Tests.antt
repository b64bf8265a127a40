-- ===== src/Automation/Tasks/Tests.antt =====
-- Tests of the task queue, and its theorems at concrete inputs.
use qa_platform_learning.Common.Tests.{
  ◌*◌, ◌≢◌, ℕ, ◌≤◌, ◌≡◌, refl, arith, true, false, String, none, some, [], ◌∷◌, nat_keyed,
  text_keyed, pair_keyed, ◌==◌, nat_beq, if◌then◌else◌,
}
use text.Mathlib.TextEquality.{eq_iff}
use qa_platform_learning.Common.Dict.{lookup}
use qa_platform_learning.Common.Result.{ok, err, ◌>>=◌}
use qa_platform_learning.Common.Time.{pos, aware}
use qa_platform_learning.Automation.Errors.{conflict, resolve}
use qa_platform_learning.Automation.Retry.{delay}
use qa_platform_learning.Automation.Tasks.Model.{Task, model_accepts}
use qa_platform_learning.Automation.Tasks.State.{Env, Queue, empty_queue, lease_holds}
use qa_platform_learning.Automation.Tasks.Recovery.{recover_expired_locked}
use qa_platform_learning.Automation.Tasks.Enqueue.{EnqueueArgs, new_task, filed_new, enqueue}
use qa_platform_learning.Automation.Tasks.Claim.{claim, leased}
use qa_platform_learning.Automation.Tasks.Settle.{
  cancel_task, heartbeat, complete, fail, acknowledge_cancel,
}
use qa_platform_learning.Automation.Tasks.Invariant.{AllValid, Sane}
use qa_platform_learning.Automation.Tasks.Evolution.{Extends}
use qa_platform_learning.Automation.Tasks.History.{recover_call, after, start, call}
use qa_platform_learning.Automation.Tasks.Lasting.{IsSound}
use qa_platform_learning.Automation.Tasks.Claims.{TakesFirst, claim-TakesFirst}
use qa_platform_learning.Automation.Retry.{default_policy, base_delay}
use qa_platform_learning.Automation.Retry.Bounds.{delay_bounds}
use qa_platform_learning.Automation.Tasks.Lasting.{Run-Extends}
use qa_platform_learning.Automation.Tasks.Claims.{live_lease_exclusive}
use qa_platform_learning.Automation.Tasks.Idempotency.{enqueue_idempotent, enqueue_conflict}
use qa_platform_learning.Automation.Tasks.Leases.{
  Refused, AllRecovered, EndsCancelled, claim_revokes_tokens, recover_leaves_none, cancel_wins,
}

text_ne : (s t : String) → (s == t) ≡ false → s ≢ t
text_ne s t h e = ground (arith, eq_iff s t)

abbrev host : Env ℕ
host = record {
  policy = default_policy;
  entropy = λ _. 500_000;
  encode_request = λ r. some r.task_type;
  encode_result = λ _. some "{}";
  sha256 = λ s. s;
  empty_result = 0;
}

abbrev host_sane : Sane host
host_sane n = omega arith

abbrev job : EnqueueArgs ℕ
job = record {
  task_type = "build";
  payload = 7;
  queue = "default";
  priority = pos 50;
  max_attempts = pos 3;
  idempotency_key = some "key";
  source_schedule_id = none;
  available_at = none;
}

abbrev waiting : Task ℕ
waiting = new_task job 100 100 1 "build"

abbrev one_waiting : Queue ℕ
one_waiting = filed_new job waiting empty_queue

abbrev held : Task ℕ
held = leased host "worker" "token" 30 200 waiting

abbrev one_running : Queue ℕ
one_running = record { tasks = (1, held) ∷ []; idempotency = one_waiting.idempotency; draws = 0 }

enqueue_makes :
    enqueue host job 100 1 empty_queue
    ≡ (ok (record { task = waiting; replayed = false }), one_waiting)
unfolding enqueue model_accepts ◌>>=◌
enqueue_makes = refl

claim_leases :
    claim host "worker" ("default" ∷ []) (pos 30) (some (aware 200)) 0 "token" one_waiting
    ≡ (ok (some (record { task = held; lease_token = "token" })), one_running)
unfolding claim ◌>>=◌
claim_leases = refl

stale_ne : ◌≢◌ {A = String} "token" "stale"
stale_ne e = text_ne "token" "stale" refl e

one_waiting-IsSound : IsSound one_waiting
one_waiting-IsSound = ground arith

one_running-IsSound : IsSound one_running
one_running-IsSound = ground arith

Run-Extends_example : Extends one_waiting (after host (recover_call none 300) one_waiting)
Run-Extends_example =
    Run-Extends host one_waiting (after host (recover_call none 300) one_waiting) host_sane
      one_waiting-IsSound (call start (recover_call none 300) tt)

claim-TakesFirst_example :
    (current : ℕ) × (resolve (some (aware 200)) 0 ≡ ok current)
    × TakesFirst host "worker"
        ("default" ∷ [])
        30
        current
        "token"
        one_waiting
        (some (record { task = held; lease_token = "token" }))
        one_running
claim-TakesFirst_example =
    claim-TakesFirst host "worker" ("default" ∷ []) (pos 30) (some (aware 200)) 0 "token"
      one_waiting one_running (some (record { task = held; lease_token = "token" })) claim_leases

live_lease_exclusive_example :
    lookup 1
      (claim host "other" ("default" ∷ []) (pos 30) (some (aware 250)) 0 "mine" one_running).1.tasks
    ≡ some held
live_lease_exclusive_example =
    live_lease_exclusive host "other" ("default" ∷ []) (pos 30) (some (aware 250)) 0 250 "mine"
      one_running 1 held host_sane one_running-IsSound refl refl refl refl

claim_revokes_tokens_example :
    Refused one_running
      (heartbeat host 1 "late" "stale" (pos 30) none 210 one_running).0
      (heartbeat host 1 "late" "stale" (pos 30) none 210 one_running).1
    × Refused one_running
        (complete host 1 "late" "stale" none none 210 one_running).0
        (complete host 1 "late" "stale" none none 210 one_running).1
    × Refused one_running
        (fail host 1 "late" "stale" "error" true none 210 one_running).0
        (fail host 1 "late" "stale" "error" true none 210 one_running).1
    × Refused one_running
        (acknowledge_cancel host 1 "late" "stale" none 210 one_running).0
        (acknowledge_cancel host 1 "late" "stale" none 210 one_running).1
claim_revokes_tokens_example =
    claim_revokes_tokens host "worker" ("default" ∷ []) (pos 30) (some (aware 200)) 0 "token"
      one_waiting one_running (record { task = held; lease_token = "token" }) claim_leases "stale"
      "late" "error" (pos 30) none true none 210 (λ e. stale_ne e)

recover_leaves_none_example :
    AllRecovered 999_999_999
      (recover_expired_locked host 999_999_999 one_running).0
      (recover_expired_locked host 999_999_999 one_running).1.tasks
recover_leaves_none_example =
    recover_leaves_none host 999_999_999 one_running host_sane one_running-IsSound.valid

abbrev stopping : Task ℕ
stopping = cancel_task 210 held

abbrev one_stopping : Queue ℕ
one_stopping = record { tasks = (1, stopping) ∷ []; idempotency = []; draws = 0 }

one_stopping_valid : AllValid one_stopping
unfolding cancel_task
one_stopping_valid = ground arith

cancel_wins_example :
    EndsCancelled 1 one_stopping
      (complete host 1 "worker" "token" none none 220 one_stopping).0
      (complete host 1 "worker" "token" none none 220 one_stopping).1
    × EndsCancelled 1 one_stopping
        (fail host 1 "worker" "token" "error" true none 220 one_stopping).0
        (fail host 1 "worker" "token" "error" true none 220 one_stopping).1
unfolding cancel_task lease_holds
cancel_wins_example =
    cancel_wins host 1 "worker" "token" "error" "{}" none true none 220 220 one_stopping stopping
      one_stopping_valid refl refl refl refl refl refl

enqueue_idempotent_example :
    enqueue host job 500 2 one_waiting
    ≡ (ok (record { task = waiting; replayed = true }), one_waiting)
enqueue_idempotent_example =
    enqueue_idempotent host job "key" 100 500 1 2 empty_queue one_waiting
      (record { task = waiting; replayed = false }) refl enqueue_makes refl

-- The texts of two requests that differ in their payloads.
abbrev precise : Env ℕ
precise = record host { encode_request = λ r. some (if nat_beq r.payload 7 then "7" else "8") }

abbrev other_job : EnqueueArgs ℕ
other_job = record job { payload = 8 }

abbrev precisely_waiting : Task ℕ
precisely_waiting = new_task job 100 100 1 "7"

abbrev one_precise : Queue ℕ
one_precise = filed_new job precisely_waiting empty_queue

precise_makes :
    enqueue precise job 100 1 empty_queue
    ≡ (ok (record { task = precisely_waiting; replayed = false }), one_precise)
unfolding enqueue model_accepts ◌>>=◌
precise_makes = refl

payload_ne : ◌≢◌ {A = String} "7" "8"
payload_ne e = text_ne "7" "8" refl e

enqueue_conflict_example : enqueue precise other_job 500 2 one_precise ≡ (err conflict, one_precise)
enqueue_conflict_example =
    enqueue_conflict precise job other_job "key" "7" "8" "8" 100 500 1 2 100 500 empty_queue
      one_precise (record { task = precisely_waiting; replayed = false }) (λ s t e. e) refl refl
      refl precise_makes refl refl refl refl refl payload_ne refl

delay_bounds_example :
    (base_delay default_policy 2 * 800_000 * 1_000_000 ≤ 2_000_000_000_000_000_000)
    × (2_000_000_000_000_000_000 ≤ base_delay default_policy 2 * 1_200_000 * 1_000_000)
unfolding delay
delay_bounds_example =
    delay_bounds default_policy 2 500_000 2_000_000_000_000_000_000 (omega arith) refl
