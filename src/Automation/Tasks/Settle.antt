-- ===== src/Automation/Tasks/Settle.antt =====
-- What the holder of a lease, and a canceller, do to a task: `heartbeat`, `complete`, `fail`,
-- `request_cancel` and `acknowledge_cancel` of backend/app/automation/tasks.py, and its queries.
use qa_platform_learning.Common.Tests.{
  ℕ, ◌+◌, Bool, true, false, not, ◌&&◌, String, Option, none, some, List, ltb, text_between,
  nat_beq, if◌then◌else◌, nat_keyed, text_keyed, pair_keyed,
}
use qa_platform_learning.Common.Lists.{select}
use qa_platform_learning.Common.Dict.{values}
use qa_platform_learning.Common.Result.{
  Result, ok, err, Action, pure, gets, lift, raise_if, modify, ◌>>=◌, ◌>>◌,
}
use qa_platform_learning.Common.Time.{DateTime, ℤ, below_one, to_ℕ, seconds}
use qa_platform_learning.Automation.Errors.{Error, conflict, validation, resolve}
use qa_platform_learning.Automation.Tasks.Model.{
  succeeded, failed, cancelled, dead_letter, is_active, Task,
}
use qa_platform_learning.Automation.Tasks.State.{
  Env, Queue, status_is_waiting, is_running, clear_lease, store, require, digest,
  require_valid_lease,
}
use qa_platform_learning.Automation.Tasks.Recovery.{wait_retry}

abbrev pub same_source : ℕ → Option ℕ → Bool
same_source schedule_id none = false
same_source schedule_id (some s) = nat_beq s schedule_id

module _ {P : Type 0} where
  -- `request_cancel` on the task that it found.
  unfoldable pub cancel_task : ℕ → Task P → Task P
  cancel_task now t =
      if status_is_waiting t.status
      then clear_lease
          (record t { status = cancelled; cancel_requested = true; finished_at = some now })
      else if is_running t.status
      then record t { cancel_requested = true }
      else t

  unfoldable pub request_cancel : ℕ → Option DateTime → ℕ → Action (Queue P) Error (Task P)
  unfolding cancel_task
  request_cancel task_id now clock = do
    current ← lift (resolve now clock)
    t ← require task_id
    modify (store (cancel_task current t))
    pure (cancel_task current t)

  -- `get`
  unfoldable pub get_task : ℕ → Action (Queue P) Error (Task P)
  get_task = require

  unfoldable pub active_for_schedule : ℕ → Action (Queue P) Error (List (Task P))
  active_for_schedule schedule_id = gets (λ q.
      select (λ t. same_source schedule_id t.source_schedule_id && is_active t.status)
        (values q.tasks))

  -- `heartbeat` on the task.
  abbrev pub beaten : ℕ → ℕ → Task P → Task P
  beaten now lease_seconds t = record t {
    heartbeat_at = some now;
    lease_expires_at = some (now + seconds lease_seconds);
  }

  -- `acknowledge_cancel` on the task.
  abbrev pub cancelled_now : ℕ → Task P → Task P
  cancelled_now now t = clear_lease (record t { status = cancelled; finished_at = some now })

module _ {P : Type 0} (env : Env P) where
  unfoldable pub heartbeat :
      ℕ → String → String → ℤ → Option DateTime → ℕ → Action (Queue P) Error (Task P)
  unfolding require_valid_lease
  heartbeat task_id worker_id token lease_seconds now clock = do
    raise_if (below_one lease_seconds) validation
    current ← lift (resolve now clock)
    t ← require_valid_lease env task_id worker_id token current
    modify (store (beaten current (to_ℕ lease_seconds) t))
    pure (beaten current (to_ℕ lease_seconds) t)

  -- `result or {}`
  abbrev pub result_or_empty : Option P → P
  result_or_empty none = env.empty_result
  result_or_empty (some r) = r

  unfoldable pub completed : ℕ → P → Task P → Task P
  completed now r t = clear_lease (
      if t.cancel_requested
      then record t { status = cancelled; result = none; finished_at = some now }
      else record t { status = succeeded; result = some r; finished_at = some now })

  unfoldable pub complete :
      ℕ → String → String → Option P → Option DateTime → ℕ → Action (Queue P) Error (Task P)
  unfolding require_valid_lease completed
  complete task_id worker_id token r now clock = do
    current ← lift (resolve now clock)
    _ ← lift (digest env (env.encode_result (result_or_empty r)))
    t ← require_valid_lease env task_id worker_id token current
    modify (store (completed current (result_or_empty r) t))
    pure (completed current (result_or_empty r) t)

  -- `fail` on the task, and the number of entropy draws that it made.
  unfoldable pub failed_task : ℕ → String → Bool → Task P → ℕ → Result Error (Unit {0}) × Task P × ℕ
  unfolding wait_retry
  failed_task now code retryable t draw =
      let u = record t { error_code = some code } in
      if t.cancel_requested
      then (ok tt, clear_lease (record u { status = cancelled; finished_at = some now }), draw)
      else if retryable && ltb t.attempts t.max_attempts
      then (let (r, w) = wait_retry env now u draw in (r, w, draw + 1))
      else if retryable
      then (ok tt, clear_lease (record u { status = dead_letter; finished_at = some now }), draw)
      else (ok tt, clear_lease (record u { status = failed; finished_at = some now }), draw)

  -- The write of `failed_task` to the queue: it stays where the retry policy raised.
  abbrev pub settle : Result Error (Unit {0}) × Task P × ℕ → Action (Queue P) Error (Task P)
  settle (r, u, n) q = (elim r [ ok _ ↦ ok u | err e ↦ err e ], store u (record q { draws = n }))

  unfoldable pub fail :
      ℕ → String → String → String → Bool → Option DateTime → ℕ → Action (Queue P) Error (Task P)
  unfolding require_valid_lease failed_task
  fail task_id worker_id token code retryable now clock = do
    current ← lift (resolve now clock)
    raise_if (not (text_between 1 100 code)) validation
    t ← require_valid_lease env task_id worker_id token current
    draw ← gets (λ q. q.draws)
    settle (failed_task current code retryable t draw)

  unfoldable pub acknowledge_cancel :
      ℕ → String → String → Option DateTime → ℕ → Action (Queue P) Error (Task P)
  unfolding require_valid_lease
  acknowledge_cancel task_id worker_id token now clock = do
    current ← lift (resolve now clock)
    t ← require_valid_lease env task_id worker_id token current
    raise_if (not t.cancel_requested) conflict
    modify (store (cancelled_now current t))
    pure (cancelled_now current t)
