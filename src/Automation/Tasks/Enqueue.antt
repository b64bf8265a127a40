-- ===== src/Automation/Tasks/Enqueue.antt =====
-- `enqueue` of `InMemoryTaskQueue`, backend/app/automation/tasks.py.
use qa_platform_learning.Common.Tests.{
  ℕ, true, false, not, String, Option, none, some, nat_keyed, text_keyed, pair_keyed, ◌==◌,
}
use qa_platform_learning.Common.Dict.{Dict, lookup, insert}
use qa_platform_learning.Common.Result.{
  Action, pure, gets, lift, find, raise_if, modify, ◌>>=◌, ◌>>◌,
}
use qa_platform_learning.Common.Time.{DateTime, ℤ, to_ℕ}
use qa_platform_learning.Automation.Errors.{Error, conflict, model_invalid, key_error, resolve}
use qa_platform_learning.Automation.Tasks.Model.{queued, Task, EnqueueResult, model_accepts}
use qa_platform_learning.Automation.Tasks.State.{Env, Queue, store, digest, Request}

-- The arguments of `enqueue`.
pub record EnqueueArgs (P : Type 0) : Type 0 where
  pub task_type : String
  pub payload : P
  pub queue : String
  pub priority : ℤ
  pub max_attempts : ℤ
  pub idempotency_key : Option String
  pub source_schedule_id : Option ℕ
  pub available_at : Option DateTime

abbrev pub remember :
    Option String
    → String
    → ℕ
    → String
    → Dict (String × String) (ℕ × String)
    → Dict (String × String) (ℕ × String)
remember none task_type id fingerprint d = d
remember (some k) task_type id fingerprint d = insert (task_type, k) (id, fingerprint) d

module _ {P : Type 0} where
  -- `request_value`; an omitted time stays omitted.
  abbrev pub request_value : EnqueueArgs P → ℕ → Request P
  request_value a due = record {
    task_type = a.task_type;
    payload = a.payload;
    queue = a.queue;
    priority = a.priority;
    max_attempts = a.max_attempts;
    source_schedule_id = a.source_schedule_id;
    available_at = elim a.available_at [ none ↦ none | some _ ↦ some due ];
  }

  -- `AutomationTask(...)` in `enqueue`, for arguments that the model accepts.
  abbrev pub new_task : EnqueueArgs P → ℕ → ℕ → ℕ → String → Task P
  new_task a due now fresh_id fingerprint = record {
    id = fresh_id;
    task_type = a.task_type;
    payload = a.payload;
    queue = a.queue;
    priority = to_ℕ a.priority;
    status = queued;
    idempotency_key = a.idempotency_key;
    request_fingerprint = fingerprint;
    source_schedule_id = a.source_schedule_id;
    attempts = 0;
    max_attempts = to_ℕ a.max_attempts;
    available_at = due;
    lease_owner = none;
    lease_token_hash = none;
    lease_expires_at = none;
    heartbeat_at = none;
    cancel_requested = false;
    result = none;
    error_code = none;
    created_at = now;
    started_at = none;
    finished_at = none;
  }

  -- `self._idempotency[(task_type, idempotency_key)] = (task.id, fingerprint)`
  abbrev pub remembered : EnqueueArgs P → Task P → Queue P → Queue P
  remembered a t q = record q {
    idempotency = remember a.idempotency_key a.task_type t.id t.request_fingerprint q.idempotency;
  }

  abbrev pub filed_new : EnqueueArgs P → Task P → Queue P → Queue P
  filed_new a t q = remembered a t (store t q)

  -- The rest of `enqueue` where no earlier call had the key.
  unfoldable pub create :
      EnqueueArgs P → ℕ → ℕ → ℕ → String → Action (Queue P) Error (EnqueueResult P)
  create a due now fresh_id fingerprint = do
    raise_if (not (model_accepts a.task_type a.queue a.priority a.idempotency_key a.max_attempts))
        model_invalid
    let t = new_task a due now fresh_id fingerprint
    modify (store t)
    modify (remembered a t)
    pure (record { task = t; replayed = false })

  -- The branch of `enqueue` for a key that was used before.
  unfoldable pub replay : String → ℕ × String → Action (Queue P) Error (EnqueueResult P)
  replay fingerprint (task_id, previous) = do
    raise_if (not (fingerprint == previous)) conflict
    t ← find (λ q. lookup task_id q.tasks) key_error
    pure (record { task = t; replayed = true })

  abbrev pub previous_of : EnqueueArgs P → Dict (String × String) (ℕ × String) → Option (ℕ × String)
  previous_of a d = elim a.idempotency_key [ none ↦ none | some k ↦ lookup (a.task_type, k) d ]

  abbrev pub answer :
      EnqueueArgs P
      → ℕ
      → ℕ
      → ℕ
      → String
      → Option (ℕ × String)
      → Action (Queue P) Error (EnqueueResult P)
  answer a due now fresh_id fingerprint none = create a due now fresh_id fingerprint
  answer a due now fresh_id fingerprint (some entry) = replay fingerprint entry

module _ {P : Type 0} (env : Env P) where
  unfoldable pub enqueue : EnqueueArgs P → ℕ → ℕ → Action (Queue P) Error (EnqueueResult P)
  unfolding create replay
  enqueue a clock fresh_id = do
    due ← lift (resolve a.available_at clock)
    fingerprint ← lift (digest env (env.encode_request (request_value a due)))
    previous ← gets (λ q. previous_of a q.idempotency)
    answer a due clock fresh_id fingerprint previous
