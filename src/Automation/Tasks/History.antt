-- ===== src/Automation/Tasks/History.antt =====
-- The history of the queue: the calls that may be made, in any order, and what every history keeps
-- (backend/app/automation/tasks.py).
use qa_platform_learning.Common.Tests.{
  ℕ, ◌≡◌, Bool, String, Option, none, List, nat_keyed, text_keyed, pair_keyed,
}
use qa_platform_learning.Common.Dict.{lookup}
use qa_platform_learning.Common.Time.{DateTime, ℤ}
use qa_platform_learning.Automation.Tasks.State.{Env, Queue}
use qa_platform_learning.Automation.Tasks.Recovery.{recover_expired}
use qa_platform_learning.Automation.Tasks.Enqueue.{EnqueueArgs, enqueue}
use qa_platform_learning.Automation.Tasks.Claim.{claim}
use qa_platform_learning.Automation.Tasks.Settle.{
  request_cancel, heartbeat, complete, fail, acknowledge_cancel,
}
use qa_platform_learning.Automation.Tasks.Invariant.{AllValid, Sane}
use qa_platform_learning.Automation.Tasks.Preserved.{
  heartbeat-AllValid, complete-AllValid, acknowledge_cancel-AllValid, fail-AllValid,
  request_cancel-AllValid, enqueue-AllValid, claim-AllValid, recover_expired-AllValid,
}

-- A call of a method, with its arguments; `clock` is what `utc_now` reads during it.
pub data Call (P : Type 0) : Type 0 where
  enqueue_call : EnqueueArgs P → (clock fresh_id : ℕ) → Call P
  claim_call : String → List String → ℤ → Option DateTime → (clock : ℕ) → (token : String) → Call P
  heartbeat_call : ℕ → String → String → ℤ → Option DateTime → ℕ → Call P
  complete_call : ℕ → String → String → Option P → Option DateTime → ℕ → Call P
  fail_call : ℕ → String → String → String → Bool → Option DateTime → ℕ → Call P
  cancel_call : ℕ → Option DateTime → ℕ → Call P
  acknowledge_call : ℕ → String → String → Option DateTime → ℕ → Call P
  recover_call : Option DateTime → ℕ → Call P

module _ {P : Type 0} (env : Env P) where
  -- The queue after a call, whether it returned or raised.
  unfoldable pub after : Call P → Queue P → Queue P
  after (enqueue_call a clock id) q = (enqueue env a clock id q).1
  after (claim_call w qs secs now clock token) q = (claim env w qs secs now clock token q).1
  after (heartbeat_call id w token secs now clock) q = (heartbeat env id w token secs now clock q).1
  after (complete_call id w token r now clock) q = (complete env id w token r now clock q).1
  after (fail_call id w token code retryable now clock) q =
      (fail env id w token code retryable now clock q).1
  after (cancel_call id now clock) q = (request_cancel id now clock q).1
  after (acknowledge_call id w token now clock) q =
      (acknowledge_cancel env id w token now clock q).1
  after (recover_call now clock) q = (recover_expired env now clock q).1

  -- A new id is not in use, as a random UUID is not.
  abbrev pub IsFresh : Call P → Queue P → Type 0
  IsFresh (enqueue_call a clock id) q = lookup id q.tasks ≡ none
  IsFresh _ q = Unit

  -- A run of the queue: any calls, from any workers, in any order.
  pub data Run (q : Queue P) : Queue P → Type 0 where
    start : Run q q
    call : {r : Queue P} → Run q r → (c : Call P) → IsFresh c r → Run q (after c r)

  pub after-AllValid : (c : Call P) (q : Queue P) → Sane env → AllValid q → AllValid (after c q)
  unfolding after
  after-AllValid (enqueue_call a clock id) q sane h = enqueue-AllValid env a clock id q h
  after-AllValid (claim_call w qs secs now clock token) q sane h =
      claim-AllValid env w qs secs now clock token q sane h
  after-AllValid (heartbeat_call id w token secs now clock) q sane h =
      heartbeat-AllValid env id w token now clock q h secs
  after-AllValid (complete_call id w token r now clock) q sane h =
      complete-AllValid env id w token now clock q h r
  after-AllValid (fail_call id w token code retryable now clock) q sane h =
      fail-AllValid env id w token now clock q h code retryable sane
  after-AllValid (cancel_call id now clock) q sane h = request_cancel-AllValid env id now clock q h
  after-AllValid (acknowledge_call id w token now clock) q sane h =
      acknowledge_cancel-AllValid env id w token now clock q h
  after-AllValid (recover_call now clock) q sane h = recover_expired-AllValid env now clock q sane h
