-- ===== src/Automation/Scheduler/InMemory.antt =====
-- The task queue of backend/app/automation/tasks.py as the port of the scheduler
-- (backend/app/automation/ports.py). `calls` counts its calls, each with its own clock reading and id.
use qa_platform_learning.Common.Tests.{ℕ, ◌+◌, some, List, map}
use qa_platform_learning.Common.Result.{Result, ok, err, Action}
use qa_platform_learning.Common.Time.{pos, aware}
use qa_platform_learning.Automation.Errors.{Error}
use qa_platform_learning.Automation.Tasks.Model.{Task, EnqueueResult}
use qa_platform_learning.Automation.Tasks.State.{Env, Queue}
use qa_platform_learning.Automation.Tasks.Enqueue.{EnqueueArgs, enqueue}
use qa_platform_learning.Automation.Tasks.Settle.{request_cancel, active_for_schedule}
use qa_platform_learning.Automation.Scheduler.Model.{Order, Port}

pub record Served (P : Type 0) : Type 0 where
  pub queue : Queue P
  pub calls : ℕ

module _ {P : Type 0} (env : Env P) (clock uuid : ℕ → ℕ) where
  abbrev pub args_of : Order P → EnqueueArgs P
  args_of o = record {
    task_type = o.task_type;
    payload = o.payload;
    queue = o.queue;
    priority = pos o.priority;
    max_attempts = pos o.max_attempts;
    idempotency_key = some o.idempotency_key;
    source_schedule_id = some o.source_schedule_id;
    available_at = some (aware o.available_at);
  }

  abbrev pub read_ok : {A B : Type 0} → (A → B) → Result Error A → Result Error B
  read_ok read (ok a) = ok (read a)
  read_ok read (err e) = err e

  -- A call of the queue, of whose result the scheduler reads a part.
  abbrev pub serve :
      {A B : Type 0} → (A → B) → (ℕ → Action (Queue P) Error A) → Action (Served P) Error B
  serve read call s =
      let (r, q) = call s.calls s.queue in
      (read_ok read r, record { queue = q; calls = s.calls + 1 })

  abbrev pub in_memory_port : Port (Served P) P
  in_memory_port = record {
    enqueue = λ o.
        serve (λ (r : EnqueueResult P). r.task.id)
          (λ n. enqueue env (args_of o) (clock n) (uuid n));
    active_for_schedule = λ id.
        serve (λ (ts : List (Task P)). map (λ (t : Task P). t.id) ts) (λ n. active_for_schedule id);
    request_cancel =
        λ id now. serve (λ (t : Task P). tt) (λ n. request_cancel id (some (aware now)) (clock n));
  }
