-- ===== src/Automation/Tasks/Cases.antt =====
-- How each method of the queue can end (backend/app/automation/tasks.py): what holds of its
-- outcomes holds of the call. The properties of the queue are proved through these rules.
use qa_platform_learning.Common.Tests.{
  ℕ, ◌≡◌, refl, arith, true_of_not, Bool, true, false, String, Option, none, some, List, nat_keyed,
  text_keyed, pair_keyed,
}
use text.Mathlib.TextEquality.{eq_iff}
use qa_platform_learning.Common.Dict.{lookup}
use qa_platform_learning.Common.Result.{Result, ok, err, Action, gets, ◌>>=◌}
use qa_platform_learning.Common.Holds.{
  Holds, Holds-pure, bind-any, bind-find, bind-lift, bind-gets, bind-raise_if, bind-modify,
  Then-both,
}
use qa_platform_learning.Common.Time.{DateTime, ℤ, to_ℕ}
use qa_platform_learning.Automation.Errors.{Error, not_found, lease_error, resolve}
use qa_platform_learning.Automation.Tasks.Model.{Task, EnqueueResult, ClaimedTask, model_accepts}
use qa_platform_learning.Automation.Tasks.State.{
  Env, Queue, is_running, store, lease_holds, digest, require_valid_lease,
}
use qa_platform_learning.Automation.Tasks.Recovery.{swept, swept, recover_expired_locked}
use qa_platform_learning.Automation.Tasks.Enqueue.{
  EnqueueArgs, request_value, new_task, filed_new, answer, enqueue, previous_of,
}
use qa_platform_learning.Automation.Tasks.Claim.{claim, take_lease, candidates}
use qa_platform_learning.Automation.Tasks.Settle.{
  beaten, cancelled_now, cancel_task, request_cancel, heartbeat, completed, complete, failed_task,
  settle, fail, acknowledge_cancel, result_or_empty,
}

module _ {P : Type 0} (env : Env P) where
  pub lease_holds-running :
      (t : Task P) (worker hash : String) (now : ℕ)
      → lease_holds t worker hash now ≡ true
      → is_running t.status ≡ true
  unfolding lease_holds
  lease_holds-running t worker hash now h = ground arith

  -- A method behind the lease check acts on a running task of the queue, or raises at once.
  pub bind-lease :
      {B : Type 0} {Post : Result Error B → Queue P → Type 0} (id : ℕ) (worker token : String)
      (now : ℕ) (f : Task P → Action (Queue P) Error B) (q : Queue P)
      → ((e : Error) → Post (err e) q)
      → ((t : Task P)
          → lookup id q.tasks ≡ some t
          → lease_holds t worker (env.sha256 token) now ≡ true
          → is_running t.status ≡ true
          → Holds Post (f t) q)
      → Holds Post (require_valid_lease env id worker token now >>= f) q
  unfolding require_valid_lease
  bind-lease id worker token now f q bad good = bind-any _ f q (
      bind-find _ _ _ q (λ _. bad not_found)
        λ t found.
          bind-raise_if _ _ _ q (λ _. bad lease_error)
            λ holds. Holds-pure t q (
              good t found (true_of_not _ holds)
                (lease_holds-running t worker _ now (true_of_not _ holds))))

  -- A lease on a task of the queue that is valid at the time `current`.
  abbrev pub Leased : ℕ → String → String → Queue P → ℕ → Task P → Type 0
  Leased id worker token q current t =
      (lookup id q.tasks ≡ some t)
      × (lease_holds t worker (env.sha256 token) current ≡ true)
      × (is_running t.status ≡ true)

  module _ (id : ℕ) (worker token : String) (now : Option DateTime) (clock : ℕ) (q : Queue P)
      {Post : Result Error (Task P) → Queue P → Type 0} (bad : (e : Error) → Post (err e) q) where
    pub heartbeat-cases :
        (secs : ℤ)
        → ((current : ℕ) (t : Task P)
            → Leased id worker token q current t
            → Post (ok (beaten current (to_ℕ secs) t)) (store (beaten current (to_ℕ secs) t) q))
        → Holds Post (heartbeat env id worker token secs now clock) q
    unfolding heartbeat
    heartbeat-cases secs good =
        bind-raise_if _ _ _ q (λ _. bad _)
          λ _.
            bind-lift _ _ q (λ _ _. bad _)
              λ current _. bind-lease id worker token current _ q bad λ t found holds runs.
                bind-modify _ _ q (Holds-pure _ _ (good current t (found, holds, runs)))

    pub complete-cases :
        (r : Option P)
        → ((current : ℕ) (t : Task P)
            → Leased id worker token q current t
            → Post
                (ok (completed env current (result_or_empty env r) t))
                (store (completed env current (result_or_empty env r) t) q))
        → Holds Post (complete env id worker token r now clock) q
    unfolding complete
    complete-cases r good =
        bind-lift _ _ q (λ _ _. bad _)
          λ current _.
            bind-lift _ _ q (λ _ _. bad _)
              λ _ _. bind-lease id worker token current _ q bad λ t found holds runs.
                bind-modify _ _ q (Holds-pure _ _ (good current t (found, holds, runs)))

    pub acknowledge_cancel-cases :
        ((current : ℕ) (t : Task P)
          → Leased id worker token q current t
          → t.cancel_requested ≡ true
          → Post (ok (cancelled_now current t)) (store (cancelled_now current t) q))
        → Holds Post (acknowledge_cancel env id worker token now clock) q
    unfolding acknowledge_cancel
    acknowledge_cancel-cases good =
        bind-lift _ _ q (λ _ _. bad _)
          λ current _. bind-lease id worker token current _ q bad λ t found holds runs.
            bind-raise_if _ _ _ q (λ _. bad _)
              λ asked.
                bind-modify _ _ q
                  (Holds-pure _ _ (good current t (found, holds, runs) (true_of_not _ asked)))

    pub fail-cases :
        (code : String) (retryable : Bool)
        → ((current : ℕ) (t : Task P)
            → Leased id worker token q current t
            → let s = settle env (failed_task env current code retryable t q.draws) q in
              Post s.0 s.1)
        → Holds Post (fail env id worker token code retryable now clock) q
    unfolding fail
    fail-cases code retryable good =
        bind-lift _ _ q (λ _ _. bad _)
          λ current _.
            bind-raise_if _ _ _ q (λ _. bad _)
              λ _. bind-lease id worker token current _ q bad λ t found holds runs.
                bind-gets _ _ q (record { at = good current t (found, holds, runs) })

  module _ (id : ℕ) (now : Option DateTime) (clock : ℕ) (q : Queue P)
      {Post : Result Error (Task P) → Queue P → Type 0} (bad : (e : Error) → Post (err e) q) where
    pub request_cancel-cases :
        ((current : ℕ) (t : Task P)
          → lookup id q.tasks ≡ some t
          → Post (ok (cancel_task current t)) (store (cancel_task current t) q))
        → Holds Post (request_cancel id now clock) q
    unfolding request_cancel
    request_cancel-cases good =
        bind-lift _ _ q (λ _ _. bad _)
          λ current _.
            bind-find _ _ _ q (λ _. bad _)
              λ t found. bind-modify _ _ q (Holds-pure _ _ (good current t found))

  -- `claim` is refused before it touches the queue, or it recovers the expired leases first and then
  -- fails in that or goes on to the candidates.
  pub claim-cases :
      {Post : Result Error (Option (ClaimedTask P)) → Queue P → Type 0} (w : String)
      (queues : List String) (secs : ℤ) (now : Option DateTime) (clock : ℕ) (token : String)
      (q : Queue P)
      → ((e : Error) → Post (err e) q)
      → ((current : ℕ)
          → resolve now clock ≡ ok current
          → (e : Error) → Post (err e) (swept env current q))
      → ((current : ℕ)
          → resolve now clock ≡ ok current
          → let s = swept env current q in
            Holds Post (take_lease env w token (to_ℕ secs) current (candidates queues current s)) s)
      → Holds Post (claim env w queues secs now clock token) q
  unfolding claim
  claim-cases {Post} w queues secs now clock token q bad late good =
      bind-raise_if _ _ _ q (λ _. bad _)
        λ _.
          bind-lift _ _ q (λ _ _. bad _)
            λ current at.
              bind-raise_if _ _ _ q (λ _. bad _)
                λ _. bind-any (recover_expired_locked env current) (rest current) q (record {
                  at =
                      Then-both {Post = Post} (rest current)
                        (recover_expired_locked env current q).0 (swept env current q)
                        (late current at)
                        λ changed.
                          bind-gets (candidates queues current)
                            (take_lease env w token (to_ℕ secs) current) (swept env current q)
                            (good current at);
                })
    where
      rest : ℕ → List (Task P) → Action (Queue P) Error (Option (ClaimedTask P))
      rest current _ =
          gets (candidates queues current) >>= take_lease env w token (to_ℕ secs) current

  module _ (a : EnqueueArgs P) (clock fresh_id : ℕ) (q : Queue P)
      {Post : Result Error (EnqueueResult P) → Queue P → Type 0}
      (bad : (e : Error) → Post (err e) q) where
    -- `enqueue` raises and changes nothing, answers with the task of an earlier call with the same
    -- fingerprint, or files a new task that the model accepts.
    pub enqueue-cases :
        ((due task_id : ℕ) (fp prev : String) (t : Task P)
          → previous_of a q.idempotency ≡ some (task_id, prev)
          → fp ≡ prev
          → lookup task_id q.tasks ≡ some t
          → Post (ok (record { task = t; replayed = true })) q)
        → ((due : ℕ) (fp : String)
            → resolve a.available_at clock ≡ ok due
            → digest env (env.encode_request (request_value a due)) ≡ ok fp
            → previous_of a q.idempotency ≡ none
            → model_accepts a.task_type a.queue a.priority a.idempotency_key a.max_attempts ≡ true
            → let t = new_task a due clock fresh_id fp in
              Post (ok (record { task = t; replayed = false })) (filed_new a t q))
        → Holds Post (enqueue env a clock fresh_id) q
    unfolding enqueue
    enqueue-cases old new =
        bind-lift _ _ q (λ _ _. bad _)
          λ due at.
            bind-lift _ _ q (λ _ _. bad _)
              λ fp print.
                bind-gets _ _ q (choose due fp at print (previous_of a q.idempotency) refl)
      where
        choose :
            (due : ℕ) (fp : String)
            → resolve a.available_at clock ≡ ok due
            → digest env (env.encode_request (request_value a due)) ≡ ok fp
            → (o : Option (ℕ × String)) → previous_of a q.idempotency ≡ o
            → Holds Post (answer a due clock fresh_id fp o) q
        choose due fp at print none e =
            bind-raise_if _ _ _ q (λ _. bad _)
              λ accepted. bind-modify _ _ q (
                bind-modify _ _ _ (Holds-pure _ _ (new due fp at print e (true_of_not _ accepted))))
        choose due fp at print (some (task_id, prev)) e =
            bind-raise_if _ _ _ q (λ _. bad _)
              λ same.
                bind-find _ _ _ q (λ _. bad _)
                  λ t found.
                    Holds-pure _ _
                      (old due task_id fp prev t e ((eq_iff fp prev).0 (true_of_not _ same)) found)
