-- ===== src/Automation/Tasks/Invariant.antt =====
-- What holds of every task of the queue between two calls (backend/app/automation/tasks.py).
use qa_platform_learning.Common.Tests.{
  ℕ, ◌≤◌, ◌<◌, ◌≡◌, ◌⊎◌, arith, Bool, true, false, String, is_some, nat_keyed, text_keyed,
  pair_keyed,
}
use qa_platform_learning.Common.Dict.{Every}
use qa_platform_learning.Common.Result.{ok}
use qa_platform_learning.Automation.Retry.{delay}
use qa_platform_learning.Automation.Tasks.Model.{
  is_terminal, running, cancelled, dead_letter, Task, model_accepts,
}
use qa_platform_learning.Automation.Tasks.State.{
  Env, Queue, status_is_waiting, is_running, is_succeeded,
}
use qa_platform_learning.Automation.Tasks.Recovery.{wait_retry, expire}
use qa_platform_learning.Automation.Tasks.Enqueue.{EnqueueArgs, new_task}
use qa_platform_learning.Automation.Tasks.Claim.{leased}
use qa_platform_learning.Automation.Tasks.Settle.{cancel_task, completed, failed_task}
use qa_platform_learning.Automation.Retry.{million}

module _ {P : Type 0} where
  -- A task has a lease exactly while it runs, an end exactly when it is terminal, a result exactly
  -- when it succeeded; its attempts stay within their maximum, and are all used when it is dead;
  -- cancellation is pending only on a running task, and a cancelled task has been cancelled.
  pub record IsValid (t : Task P) : Type 0 where
    pub owner_held : is_some t.lease_owner ≡ is_running t.status
    pub hash_held : is_some t.lease_token_hash ≡ is_running t.status
    pub expiry_held : is_some t.lease_expires_at ≡ is_running t.status
    pub beat_held : is_some t.heartbeat_at ≡ is_running t.status
    pub ended : is_some t.finished_at ≡ is_terminal t.status
    pub has_result : is_some t.result ≡ is_succeeded t.status
    pub within : t.attempts ≤ t.max_attempts
    pub may_run : status_is_waiting t.status ≡ true → t.attempts < t.max_attempts
    pub has_run : is_running t.status ≡ true → 0 < t.attempts
    pub exhausted : t.status ≡ dead_letter → t.attempts ≡ t.max_attempts
    pub cancelling : t.cancel_requested ≡ true → (t.status ≡ running) ⊎ (t.status ≡ cancelled)

  pub record Filed (k : ℕ) (t : Task P) : Type 0 where
    pub under_id : t.id ≡ k
    pub valid : IsValid t

  abbrev pub AllValid : Queue P → Type 0
  AllValid q = Every Filed q.tasks

  -- The entropy source keeps to the unit interval, as `random.random` does.
  abbrev pub Sane : Env P → Type 0
  Sane env = (n : ℕ) → env.entropy n ≤ million

module _ {P : Type 0} (env : Env P) where
  pub wait_retry-ok :
      (now : ℕ) (t : Task P) (n : ℕ)
      → Sane env
      → 0 < t.attempts
      → (wait_retry env now t n).0 ≡ ok tt
  unfolding wait_retry delay
  wait_retry-ok now t n sane h = ground (arith, sane n)

  pub expire-IsValid :
      (now : ℕ) (t : Task P) (n : ℕ)
      → Sane env
      → is_running t.status ≡ true
      → IsValid t
      → IsValid (expire env now t n).1
  unfolding expire
  expire-IsValid now t n sane h v = ground (arith, sane n)

  pub failed_task-IsValid :
      (now : ℕ) (code : String) (retryable : Bool) (t : Task P) (n : ℕ)
      → Sane env
      → is_running t.status ≡ true
      → IsValid t
      → IsValid (failed_task env now code retryable t n).1
  unfolding failed_task
  failed_task-IsValid now code retryable t n sane h v = ground (arith, sane n)

  pub completed-IsValid :
      (now : ℕ) (r : P) (t : Task P)
      → is_running t.status ≡ true
      → IsValid t
      → IsValid (completed env now r t)
  unfolding completed
  completed-IsValid now r t h v = ground arith

  pub leased-IsValid :
      (worker token : String) (secs now : ℕ) (t : Task P)
      → status_is_waiting t.status ≡ true
      → t.cancel_requested ≡ false
      → IsValid t
      → IsValid (leased env worker token secs now t)
  leased-IsValid worker token secs now t h c v = ground arith

  pub cancel_task-IsValid : (now : ℕ) (t : Task P) → IsValid t → IsValid (cancel_task now t)
  unfolding cancel_task
  cancel_task-IsValid now t v = ground arith

  pub new_task-IsValid :
      (a : EnqueueArgs P) (due now id : ℕ) (fp : String)
      → model_accepts a.task_type a.queue a.priority a.idempotency_key a.max_attempts ≡ true
      → IsValid (new_task a due now id fp)
  unfolding model_accepts
  new_task-IsValid a due now id fp h = ground arith
