-- ===== src/Automation/Tasks/Leases.antt =====
-- Leases that no longer hold, expired leases, and pending cancellations
-- (backend/app/automation/tasks.py).
use qa_platform_learning.Common.Tests.{
  ◌≢◌, ℕ, ◌≡◌, refl, ◌∙◌, arith, ap, sym, Bool, true, false, String, Option, none, some, List, [],
  text_between, ◌∷◌, nat_keyed, text_keyed, pair_keyed,
}
use text.Mathlib.TextEquality.{eq_iff}
use mathlib.Core.Option.{some-injective}
use qa_platform_learning.Common.Dict.{lookup-insert_self, Dict, lookup, Every, Every-lookup}
use qa_platform_learning.Common.Result.{Result, ok, err, ◌>>=◌}
use qa_platform_learning.Common.Holds.{Holds}
use qa_platform_learning.Common.Time.{DateTime, ℤ}
use qa_platform_learning.Automation.Errors.{Error, resolve}
use qa_platform_learning.Automation.Retry.{delay}
use qa_platform_learning.Automation.Tasks.Model.{cancelled, Task, ClaimedTask}
use qa_platform_learning.Automation.Tasks.State.{
  Env, Queue, is_running, lease_holds, store, digest, require_valid_lease,
}
use qa_platform_learning.Automation.Tasks.Recovery.{
  swept, wait_retry, expire, recover_loop, is_expired, recover_expired_locked,
}
use qa_platform_learning.Automation.Tasks.Claim.{claim}
use qa_platform_learning.Automation.Tasks.Settle.{
  heartbeat, completed, complete, failed_task, settle, fail, acknowledge_cancel, result_or_empty,
}
use qa_platform_learning.Automation.Tasks.Invariant.{IsValid, Filed, AllValid, Sane}
use qa_platform_learning.Automation.Tasks.Cases.{
  heartbeat-cases, complete-cases, acknowledge_cancel-cases, fail-cases,
}
use qa_platform_learning.Automation.Tasks.Preserved.{filed}
use qa_platform_learning.Automation.Tasks.Claims.{claim-TakesFirst}
use qa_platform_learning.Automation.Tasks.Preserved.{filed}

module _ {P : Type 0} where
  -- A call that is refused: it raises, and the queue is as it was.
  abbrev pub Refused : {B : Type 0} → Queue P → Result Error B → Queue P → Type 0
  Refused q (ok _) q' = ⊥
  Refused q (err _) q' = q' ≡ q

  -- The scan came to its end, and no task is left that runs on an expired lease.
  abbrev pub AllRecovered : {A : Type 0} → ℕ → Result Error A → Dict ℕ (Task P) → Type 0
  AllRecovered now (err _) d = ⊥
  AllRecovered now (ok _) d = Every (λ _ t. is_expired now t ≡ false) d

  abbrev pub IsCancelled : Task P → Type 0
  IsCancelled t = (t.status ≡ cancelled) × (t.result ≡ none) × (t.lease_owner ≡ none)

  -- The call returns the task `id`, cancelled and without a result, and the queue holds it so; the other tasks are
  -- as they were.
  abbrev pub EndsCancelled : ℕ → Queue P → Result Error (Task P) → Queue P → Type 0
  EndsCancelled id q (err _) q' = ⊥
  EndsCancelled id q (ok t) q' = IsCancelled t × (t.id ≡ id) × (q' ≡ store t q)

module _ {P : Type 0} (env : Env P) where
  -- Without a valid lease a task can be neither kept alive, completed, failed nor acknowledged.
  pub no_lease-Refused :
      (id : ℕ) (w token code : String) (secs : ℤ) (r : Option P) (retryable : Bool)
      (now : Option DateTime) (clock : ℕ) (q : Queue P)
      → ((current : ℕ) (t : Task P)
          → lookup id q.tasks ≡ some t
          → lease_holds t w (env.sha256 token) current ≡ false)
      → Holds (Refused q) (heartbeat env id w token secs now clock) q
        × Holds (Refused q) (complete env id w token r now clock) q
        × Holds (Refused q) (fail env id w token code retryable now clock) q
        × Holds (Refused q) (acknowledge_cancel env id w token now clock) q
  no_lease-Refused id w token code secs r retryable now clock q lost = (
    heartbeat-cases env id w token now clock q (λ _. refl) secs
        (λ n t l. absurd (clash n t l.0 l.1)),
    complete-cases env id w token now clock q (λ _. refl) r (λ n t l. absurd (clash n t l.0 l.1)),
    fail-cases env id w token now clock q (λ _. refl) code retryable
        (λ n t l. absurd (clash n t l.0 l.1)),
    acknowledge_cancel-cases env id w token now clock q (λ _. refl)
        (λ n t l _. absurd (clash n t l.0 l.1)),
  )
    where
      clash :
          (n : ℕ) (t : Task P)
          → lookup id q.tasks ≡ some t
          → lease_holds t w (env.sha256 token) n ≡ true
          → ⊥
      clash n t found holds = cc (lost n t found)

  other_token :
      (t : Task P) (w hash held : String) (n : ℕ)
      → t.lease_token_hash ≡ some held
      → held ≢ hash
      → lease_holds t w hash n ≡ false
  unfolding lease_holds
  other_token t w hash held n e ne = ground (arith, eq_iff held hash)

  claimed_hash :
      (w : String) (queues : List String) (secs : ℤ) (now : Option DateTime) (clock : ℕ)
      (token : String) (q q' : Queue P) (c : ClaimedTask P)
      → claim env w queues secs now clock token q ≡ (ok (some c), q')
      → (c.task.lease_token_hash ≡ some (env.sha256 token))
        × (lookup c.task.id q'.tasks ≡ some c.task)
  claimed_hash w queues secs now clock token q q' c e =
      let (current, at, first) =
        claim-TakesFirst env w queues secs now clock token q q' (some c) e in
      let (t, among, leads, task, state) = first in
      (
        ap (λ (u : Task P). u.lease_token_hash) task,
        rw state (lookup-insert_self c.task.id c.task (swept env current q).tasks),
      )

  -- Once a worker has claimed a task, a token with another hash is refused for it, whoever presents
  -- it and whenever: a holder from before can neither keep the lease alive, complete, fail nor
  -- acknowledge, and its calls change nothing.
  pub claim_revokes_tokens :
      (w : String) (queues : List String) (secs : ℤ) (now : Option DateTime) (clock : ℕ)
      (token : String) (q q' : Queue P) (c : ClaimedTask P)
      → claim env w queues secs now clock token q ≡ (ok (some c), q')
      → (old : String) (old_worker code : String) (more : ℤ) (r : Option P) (retryable : Bool)
        (later : Option DateTime) (clock' : ℕ)
      → env.sha256 token ≢ env.sha256 old
      → let id = c.task.id in
        Refused q'
          (heartbeat env id old_worker old more later clock' q').0
          (heartbeat env id old_worker old more later clock' q').1
        × Refused q'
            (complete env id old_worker old r later clock' q').0
            (complete env id old_worker old r later clock' q').1
        × Refused q'
            (fail env id old_worker old code retryable later clock' q').0
            (fail env id old_worker old code retryable later clock' q').1
        × Refused q'
            (acknowledge_cancel env id old_worker old later clock' q').0
            (acknowledge_cancel env id old_worker old later clock' q').1
  claim_revokes_tokens w queues secs now clock token q q' c e old old_worker code more r retryable
        later clock' ne =
      let (held, stored) = claimed_hash w queues secs now clock token q q' c e in
      let (a, b, f, k) =
        no_lease-Refused c.task.id old_worker old code more r retryable later clock' q'
          (λ n t found.
            other_token t old_worker (env.sha256 old) (env.sha256 token) n
              (ap (λ (u : Task P). u.lease_token_hash) (some-injective _ _ (sym found ∙ stored))
                ∙ held)
              ne) in
      (a.at, b.at, f.at, k.at)

  expire-done :
      (now : ℕ) (t : Task P) (n : ℕ)
      → Sane env
      → IsValid t
      → is_running t.status ≡ true
      → ((expire env now t n).0 ≡ ok tt) × (is_expired now (expire env now t n).1 ≡ false)
  unfolding expire wait_retry delay
  expire-done now t n sane v runs = ground (arith, sane n)

  recover_loop-done :
      (now : ℕ) (d : Dict ℕ (Task P)) (n : ℕ)
      → Sane env
      → Every Filed d
      → AllRecovered now (recover_loop env now d n).0 (recover_loop env now d n).1
  unfolding recover_loop
  recover_loop-done now [] n sane h = tt
  recover_loop-done now ((k, t) ∷ d) n sane h = ground (
    arith,
    recover_loop-done now d n sane h.1,
    recover_loop-done now d (expire env now t n).2 sane h.1,
    expire-done now t n sane h.0.valid,
  )

  -- Recovering expired leases never raises on valid tasks, and leaves no task that runs on a lease
  -- which has expired by then, if the entropy source keeps to the unit interval.
  pub recover_leaves_none :
      (now : ℕ) (q : Queue P)
      → Sane env
      → AllValid q
      → AllRecovered now
          (recover_expired_locked env now q).0
          (recover_expired_locked env now q).1.tasks
  unfolding recover_expired_locked
  recover_leaves_none now q sane h = recover_loop-done now q.tasks q.draws sane h

  leased_complete :
      (id : ℕ) (w token fp : String) (r : Option P) (now : Option DateTime) (clock current : ℕ)
      (q : Queue P) (t : Task P)
      → lookup id q.tasks ≡ some t
      → resolve now clock ≡ ok current
      → lease_holds t w (env.sha256 token) current ≡ true
      → digest env (env.encode_result (result_or_empty env r)) ≡ ok fp
      → complete env id w token r now clock q ≡ (
        ok (completed env current (result_or_empty env r) t),
        store (completed env current (result_or_empty env r) t) q,
      )
  unfolding complete require_valid_lease ◌>>=◌
  leased_complete id w token fp r now clock current q t found time holds print =
      rw time (rw print (rw found (rw holds refl)))

  leased_fail :
      (id : ℕ) (w token code : String) (retryable : Bool) (now : Option DateTime)
      (clock current : ℕ) (q : Queue P) (t : Task P)
      → lookup id q.tasks ≡ some t
      → resolve now clock ≡ ok current
      → lease_holds t w (env.sha256 token) current ≡ true
      → text_between 1 100 code ≡ true
      → fail env id w token code retryable now clock q
        ≡ settle env (failed_task env current code retryable t q.draws) q
  unfolding fail require_valid_lease ◌>>=◌
  leased_fail id w token code retryable now clock current q t found time holds fits =
      rw time (rw fits (rw found (rw holds refl)))

  -- After a cancellation was asked for, in a queue of valid tasks, the report of success by the
  -- holder of the task's valid lease, with a result that has a JSON text within the size limit,
  -- returns the task as cancelled and without a result, and the queue stores it so, the other tasks
  -- unchanged; the holder's report of failure with a code of 1 to 100 characters does the same,
  -- retryable or not.
  pub cancel_wins :
      (id : ℕ) (w token code fp : String) (r : Option P) (retryable : Bool) (now : Option DateTime)
      (clock current : ℕ) (q : Queue P) (t : Task P)
      → AllValid q
      → lookup id q.tasks ≡ some t
      → t.cancel_requested ≡ true
      → resolve now clock ≡ ok current
      → lease_holds t w (env.sha256 token) current ≡ true
      → digest env (env.encode_result (result_or_empty env r)) ≡ ok fp
      → text_between 1 100 code ≡ true
      → EndsCancelled id q
          (complete env id w token r now clock q).0
          (complete env id w token r now clock q).1
        × EndsCancelled id q
            (fail env id w token code retryable now clock q).0
            (fail env id w token code retryable now clock q).1
  cancel_wins id w token code fp r retryable now clock current q t h found asked time holds print
        fits =
      (
        rw (leased_complete id w token fp r now clock current q t found time holds print)
            (completed_cancelled (result_or_empty env r)),
        rw (leased_fail id w token code retryable now clock current q t found time holds fits)
            failed_cancelled,
      )
    where
      own : t.id ≡ id
      own = (Every-lookup Filed id t q.tasks h found).under_id

      completed_cancelled :
          (p : P)
          → EndsCancelled id q
              (ok (completed env current p t))
              (store (completed env current p t) q)
      completed_cancelled p = unfold completed in ground (arith, own)

      failed_cancelled :
          EndsCancelled id q
            (settle env (failed_task env current code retryable t q.draws) q).0
            (settle env (failed_task env current code retryable t q.draws) q).1
      failed_cancelled = unfold failed_task in ground (arith, own, filed env id t q h found)
