-- ===== src/Automation/Tasks/State.antt =====
-- The state and the lease check of `InMemoryTaskQueue`, backend/app/automation/tasks.py. A call runs under the queue's lock, so
-- it is one step on the queue's state; what it wrote before a raise stays written. The clock's
-- reading, a fresh id and a fresh token are arguments.
use qa_platform_learning.Common.Tests.{
  ℕ, Bool, true, false, not, ◌&&◌, String, Option, none, some, [], ltb, leb, is_some, if◌then◌else◌,
  nat_keyed, text_keyed, pair_keyed, ◌==◌,
}
use qa_platform_learning.Common.Dict.{Dict, lookup, insert}
use qa_platform_learning.Common.Result.{Result, ok, err, Action, pure, find, raise_if, ◌>>=◌, ◌>>◌}
use qa_platform_learning.Common.Time.{ℤ}
use qa_platform_learning.Automation.Errors.{Error, not_found, lease_error, validation}
use qa_platform_learning.Automation.Retry.{RetryPolicy}
use qa_platform_learning.Automation.Tasks.Model.{
  TaskStatus, queued, running, retry_wait, succeeded, Task,
}
use Prim.Native.String.{len}

-- `request_value`: what the fingerprint of an enqueue covers.
pub record Request (P : Type 0) : Type 0 where
  pub task_type : String
  pub payload : P
  pub queue : String
  pub priority : ℤ
  pub max_attempts : ℤ
  pub source_schedule_id : Option ℕ
  pub available_at : Option ℕ

-- What the queue is given: its retry policy and entropy source, `json.dumps` on requests and
-- results (`none` where it raises), SHA-256 as hexadecimal text, and the empty result `{}`.
pub record Env (P : Type 0) : Type 0 where
  pub policy : RetryPolicy
  pub entropy : ℕ → ℕ
  pub encode_request : Request P → Option String
  pub encode_result : P → Option String
  pub sha256 : String → String
  pub empty_result : P

-- `draws` counts the calls of the entropy source.
pub record Queue (P : Type 0) : Type 0 where
  pub tasks : Dict ℕ (Task P)
  pub idempotency : Dict (String × String) (ℕ × String)
  pub draws : ℕ

abbrev pub status_is_waiting : TaskStatus → Bool
status_is_waiting queued = true
status_is_waiting retry_wait = true
status_is_waiting _ = false

abbrev pub is_running : TaskStatus → Bool
is_running running = true
is_running _ = false

abbrev pub is_succeeded : TaskStatus → Bool
is_succeeded succeeded = true
is_succeeded _ = false

-- `lease_expires_at <= now`, false where there is none.
abbrev pub lapsed : Option ℕ → ℕ → Bool
lapsed none now = false
lapsed (some e) now = leb e now

abbrev pub same_text : Option String → String → Bool
same_text none s = false
same_text (some t) s = t == s

module _ {P : Type 0} where
  abbrev pub empty_queue : Queue P
  empty_queue = record { tasks = []; idempotency = []; draws = 0 }

  -- `_clear_lease`
  abbrev pub clear_lease : Task P → Task P
  clear_lease t = record t {
    lease_owner = none;
    lease_token_hash = none;
    lease_expires_at = none;
    heartbeat_at = none;
  }

  -- The write of a mutated task object back into the dictionary.
  abbrev pub store : Task P → Queue P → Queue P
  store t q = record q { tasks = insert t.id t q.tasks }

  -- `_require`
  abbrev pub require : ℕ → Action (Queue P) Error (Task P)
  require task_id = find (λ q. lookup task_id q.tasks) not_found

  -- The condition of `_require_valid_lease`, read the other way round.
  unfoldable pub lease_holds : Task P → String → String → ℕ → Bool
  lease_holds t worker_id token_hash now =
      is_running t.status
      && same_text t.lease_owner worker_id
      && same_text t.lease_token_hash token_hash
      && is_some t.lease_expires_at
      && not (lapsed t.lease_expires_at now)

module _ {P : Type 0} (env : Env P) where
  -- `_fingerprint` after `json.dumps`: the size limit, and the digest.
  abbrev pub digest : Option String → Result Error String
  digest none = err validation
  digest (some encoded) =
      if ltb 262_144 (len encoded) then err validation else ok (env.sha256 encoded)

  -- `_require_valid_lease`
  unfoldable pub require_valid_lease : ℕ → String → String → ℕ → Action (Queue P) Error (Task P)
  unfolding lease_holds
  require_valid_lease task_id worker_id lease_token now = do
    t ← require task_id
    raise_if (not (lease_holds t worker_id (env.sha256 lease_token) now)) lease_error
    pure t
