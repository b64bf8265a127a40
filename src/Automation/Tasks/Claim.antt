-- ===== src/Automation/Tasks/Claim.antt =====
-- `claim` of `InMemoryTaskQueue`, backend/app/automation/tasks.py.
use qa_platform_learning.Common.Tests.{
  ℕ, ◌+◌, Bool, not, ◌&&◌, ◌||◌, String, Option, none, some, List, [], ◌∷◌, ltb, leb, is_blank,
  nat_beq, if◌then◌else◌, nat_keyed, text_keyed, pair_keyed, ◌==◌,
}
use qa_platform_learning.Common.Lists.{is_empty, any, select}
use qa_platform_learning.Common.Dict.{values}
use qa_platform_learning.Common.Result.{Action, pure, gets, lift, raise_if, modify, ◌>>=◌, ◌>>◌}
use qa_platform_learning.Common.Time.{DateTime, ℤ, below_one, to_ℕ, seconds}
use qa_platform_learning.Automation.Errors.{Error, validation, resolve}
use qa_platform_learning.Automation.Tasks.Model.{running, Task, ClaimedTask}
use qa_platform_learning.Automation.Tasks.State.{Env, Queue, status_is_waiting, store}
use qa_platform_learning.Automation.Tasks.Recovery.{recover_expired_locked}

abbrev pub or_else : Option ℕ → ℕ → ℕ
or_else none n = n
or_else (some m) n = m

-- The order of `claim`'s candidates: by falling priority, then by the time from which the task is
-- available, its creation and its id.
unfoldable pub precedes : {P : Type 0} → Task P → Task P → Bool
precedes a b =
    ltb b.priority a.priority
    || (nat_beq a.priority b.priority
        && (ltb a.available_at b.available_at
            || (nat_beq a.available_at b.available_at
                && (ltb a.created_at b.created_at
                    || (nat_beq a.created_at b.created_at && ltb a.id b.id)))))

module _ {P : Type 0} where
  -- Python's `min`: the first of the least.
  unfoldable pub least : Task P → List (Task P) → Task P
  unfolding precedes
  least t [] = t
  least t (u ∷ us) = least (if precedes u t then u else t) us

  unfoldable pub is_candidate : List String → ℕ → Task P → Bool
  is_candidate queues now t =
      any (λ n. n == t.queue) queues
      && status_is_waiting t.status
      && leb t.available_at now
      && not t.cancel_requested

  unfoldable pub candidates : List String → ℕ → Queue P → List (Task P)
  unfolding is_candidate
  candidates queues now q = select (is_candidate queues now) (values q.tasks)

module _ {P : Type 0} (env : Env P) where
  -- `claim` on the chosen candidate.
  abbrev pub leased : String → String → ℕ → ℕ → Task P → Task P
  leased worker_id token lease_seconds now t = record t {
    status = running;
    attempts = t.attempts + 1;
    lease_owner = some worker_id;
    lease_token_hash = some (env.sha256 token);
    lease_expires_at = some (now + seconds lease_seconds);
    heartbeat_at = some now;
    started_at = some (or_else t.started_at now);
  }

  unfoldable pub take_lease :
      String → String → ℕ → ℕ → List (Task P) → Action (Queue P) Error (Option (ClaimedTask P))
  unfolding least
  take_lease worker_id token lease_seconds now [] = pure none
  take_lease worker_id token lease_seconds now (t ∷ ts) = do
    let claimed = leased worker_id token lease_seconds now (least t ts)
    modify (store claimed)
    pure (some (record { task = claimed; lease_token = token }))

  unfoldable pub claim :
      String
      → List String
      → ℤ
      → Option DateTime
      → ℕ
      → String
      → Action (Queue P) Error (Option (ClaimedTask P))
  unfolding take_lease recover_expired_locked candidates
  claim worker_id queues lease_seconds now clock token = do
    raise_if (is_blank worker_id || below_one lease_seconds) validation
    current ← lift (resolve now clock)
    raise_if (is_empty queues) validation
    _ ← recover_expired_locked env current
    waiting ← gets (candidates queues current)
    take_lease worker_id token (to_ℕ lease_seconds) current waiting
