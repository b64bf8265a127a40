-- ===== src/Automation/Tasks/Lasting.antt =====
-- What every call leaves of the tasks that were there before it (backend/app/automation/tasks.py).
use qa_platform_learning.Common.Tests.{
  nat_beq_iff, ℕ, ◌≡◌, ◌∙◌, inl, inr, arith, ap, sym, Bool-cases, Bool, true, String, Option, none,
  some, List, [], ◌∷◌, nat_beq, nat_keyed, text_keyed, pair_keyed,
}
use qa_platform_learning.Common.Lists.{All, All-select}
use qa_platform_learning.Common.Dict.{
  values, lookup, insert, lookup-insert, Every-lookup, Every-values, Every-both, Distinct,
  Distinct-insert, Distinct-lookup,
}
use qa_platform_learning.Common.Result.{Result}
use qa_platform_learning.Common.Holds.{Holds, Holds-pure, bind-lift, bind-modify}
use qa_platform_learning.Common.Time.{DateTime, ℤ, to_ℕ}
use qa_platform_learning.Automation.Errors.{Error}
use qa_platform_learning.Automation.Tasks.Model.{Task}
use qa_platform_learning.Automation.Tasks.State.{Env, Queue, store}
use qa_platform_learning.Automation.Tasks.Recovery.{
  swept, recover_loop, recover_expired, recover_expired_locked,
}
use qa_platform_learning.Automation.Tasks.Enqueue.{EnqueueArgs, new_task, filed_new, enqueue}
use qa_platform_learning.Automation.Tasks.Claim.{claim, take_lease, least, candidates, is_candidate}
use qa_platform_learning.Automation.Tasks.Settle.{
  request_cancel, heartbeat, complete, failed_task, fail, acknowledge_cancel,
}
use qa_platform_learning.Automation.Tasks.Invariant.{IsValid, Filed, AllValid, Sane}
use qa_platform_learning.Automation.Tasks.Cases.{
  heartbeat-cases, complete-cases, acknowledge_cancel-cases, fail-cases, request_cancel-cases,
  enqueue-cases, claim-cases,
}
use qa_platform_learning.Automation.Tasks.Preserved.{
  recover_loop-Every, least-All, candidate_may_run,
}
use qa_platform_learning.Automation.Tasks.Evolution.{
  Evolves, Evolves-refl, Extends, Extends-refl, Extends-trans, store-Extends, failed_task-Evolves,
  completed-Evolves, cancel_task-Evolves, leased-Evolves, recover_later, recover_loop-Distinct,
  recover_loop-Distinct,
}
use qa_platform_learning.Automation.Tasks.History.{
  Call, enqueue_call, claim_call, heartbeat_call, complete_call, fail_call, cancel_call,
  acknowledge_call, recover_call, after, IsFresh, Run, start, call, after-AllValid,
}

module _ {P : Type 0} where
  -- The tasks are valid, and no id stands twice.
  pub record IsSound (q : Queue P) : Type 0 where
    pub valid : AllValid q
    pub distinct : Distinct q.tasks

  -- What a call makes of the tasks: no id twice, and every task of before in a later state.
  pub record Advances (q q' : Queue P) : Type 0 where
    pub distinct : Distinct q'.tasks
    pub extends : Extends q q'

  -- A new entry leaves the entries of other ids alone.
  kept_beside :
      (id : ℕ) (u : Task P) (j : ℕ) (t : Task P) (q : Queue P)
      → lookup id q.tasks ≡ some u
      → lookup j q.tasks ≡ none
      → lookup id (insert j t q.tasks) ≡ some u
  kept_beside id u j t q found fresh = elim (Bool-cases (nat_beq j id)) [
    | inl same ↦
        absurd
          (cc (sym fresh ∙ ap (λ (k : ℕ). lookup k q.tasks) ((nat_beq_iff j id).0 same) ∙ found))
    | inr other ↦ rw (lookup-insert j id t q.tasks) (rw other found)
  ]

  -- Every stored task is the one found under its id.
  pub stored_tasks :
      (q : Queue P)
      → IsSound q
      → All (λ t. IsValid t × (lookup t.id q.tasks ≡ some t)) (values q.tasks)
  stored_tasks q s =
      Every-values _ _ own q.tasks
        (Every-both Filed _ q.tasks s.valid (Distinct-lookup q.tasks s.distinct))
    where
      own :
          (k : ℕ) (t : Task P)
          → Filed k t × (lookup k q.tasks ≡ some t)
          → IsValid t × (lookup t.id q.tasks ≡ some t)
      own k t (f, found) = (f.valid, ap (λ (i : ℕ). lookup i q.tasks) f.under_id ∙ found)

module _ {P : Type 0} (env : Env P) where
  abbrev Moves : Queue P → {B : Type 0} → Result Error B → Queue P → Type 0
  Moves q r q' = Advances q q'

  module _ (q : Queue P) (s : IsSound q) where
    same : Advances q q
    same = record { distinct = s.distinct; extends = Extends-refl q }

    wrote :
        (id : ℕ) (t u : Task P) (n : ℕ)
        → lookup id q.tasks ≡ some t
        → Evolves t u
        → Advances q (store u (record q { draws = n }))
    wrote id t u n found e = record {
      distinct = Distinct-insert u.id u q.tasks s.distinct;
      extends =
          store-Extends id t u q n found (Every-lookup Filed id t q.tasks s.valid found).under_id e;
    }

    added :
        (a : EnqueueArgs P) (t : Task P) → lookup t.id q.tasks ≡ none → Advances q (filed_new a t q)
    added a t fresh = record {
      distinct = Distinct-insert t.id t q.tasks s.distinct;
      extends = record {
        later = λ id u found. (u, kept_beside id u t.id t q found fresh, Evolves-refl u);
      };
    }

    recovered :
        (now n : ℕ)
        → Advances q (record q { tasks = (recover_loop env now q.tasks q.draws).1; draws = n })
    recovered now n = record {
      distinct = recover_loop-Distinct env now q.tasks q.draws s.distinct;
      extends = recover_later env now q n;
    }

    heartbeat-Advances :
        (id : ℕ) (w token : String) (secs : ℤ) (now : Option DateTime) (clock : ℕ)
        → Advances q (heartbeat env id w token secs now clock q).1
    heartbeat-Advances id w token secs now clock =
        (heartbeat-cases env id w token now clock q {Post = Moves q} (λ _. same) secs
          λ current t l. wrote id t _ q.draws l.0 (let runs = l.2 in ground arith)).at

    complete-Advances :
        (id : ℕ) (w token : String) (r : Option P) (now : Option DateTime) (clock : ℕ)
        → Advances q (complete env id w token r now clock q).1
    complete-Advances id w token r now clock =
        (complete-cases env id w token now clock q {Post = Moves q} (λ _. same) r
          λ current t l. wrote id t _ q.draws l.0 (completed-Evolves env current _ t l.2)).at

    acknowledge-Advances :
        (id : ℕ) (w token : String) (now : Option DateTime) (clock : ℕ)
        → Advances q (acknowledge_cancel env id w token now clock q).1
    acknowledge-Advances id w token now clock =
        (acknowledge_cancel-cases env id w token now clock q {Post = Moves q} (λ _. same)
          λ current t l asked. wrote id t _ q.draws l.0 (let runs = l.2 in ground arith)).at

    fail-Advances :
        (id : ℕ) (w token code : String) (retryable : Bool) (now : Option DateTime) (clock : ℕ)
        → Advances q (fail env id w token code retryable now clock q).1
    fail-Advances id w token code retryable now clock =
        (fail-cases env id w token now clock q {Post = Moves q} (λ _. same) code retryable
          λ current t l.
            wrote id t _ (failed_task env current code retryable t q.draws).2 l.0
              (failed_task-Evolves env current code retryable t q.draws l.2)).at

    cancel-Advances :
        (id : ℕ) (now : Option DateTime) (clock : ℕ) → Advances q (request_cancel id now clock q).1
    cancel-Advances id now clock =
        (request_cancel-cases env id now clock q {Post = Moves q} (λ _. same)
          λ current t found. wrote id t _ q.draws found (cancel_task-Evolves env current t)).at

    enqueue-Advances :
        (a : EnqueueArgs P) (clock id : ℕ)
        → lookup id q.tasks ≡ none
        → Advances q (enqueue env a clock id q).1
    enqueue-Advances a clock id fresh =
        (enqueue-cases env a clock id q {Post = Moves q} (λ _. same) (λ _ _ _ _ _ _ _ _. same)
          λ due fp _ _ _ accepted. added a (new_task a due clock id fp) fresh).at

  leased-Advances :
      (w token : String) (secs now : ℕ) (queues : List String) (q : Queue P) (ts : List (Task P))
      → IsSound q
      → All
          (λ t. (IsValid t × (lookup t.id q.tasks ≡ some t)) × (is_candidate queues now t ≡ true))
          ts
      → Holds (Moves q) (take_lease env w token secs now ts) q
  unfolding take_lease
  leased-Advances w token secs now queues q [] s hs = Holds-pure _ q (same q s)
  leased-Advances w token secs now queues q (t ∷ ts) s hs =
      let (stored, c) = least-All env _ t ts hs.0 hs.1 in
      let (waits, wanted) = candidate_may_run env queues now (least t ts) c in
      bind-modify _ _ q (
        Holds-pure _ _ (
          wrote q s (least t ts).id (least t ts) _ q.draws stored.1
            (leased-Evolves env w token secs now (least t ts) waits)))

  Advances-trans : (q r s : Queue P) → Advances q r → Advances r s → Advances q s
  Advances-trans q r s a b = record {
    distinct = b.distinct;
    extends = Extends-trans q r s a.extends b.extends;
  }

  pub swept-IsSound : (now : ℕ) (q : Queue P) → Sane env → IsSound q → IsSound (swept env now q)
  unfolding recover_expired_locked
  swept-IsSound now q sane s = record {
    valid = recover_loop-Every env now q.tasks q.draws sane s.valid;
    distinct = recover_loop-Distinct env now q.tasks q.draws s.distinct;
  }

  swept-Advances : (now : ℕ) (q : Queue P) → IsSound q → Advances q (swept env now q)
  unfolding recover_expired_locked
  swept-Advances now q s = recovered q s now (recover_loop env now q.tasks q.draws).2

  claim-Advances :
      (w : String) (queues : List String) (secs : ℤ) (now : Option DateTime) (clock : ℕ)
      (token : String) (q : Queue P)
      → Sane env
      → IsSound q
      → Advances q (claim env w queues secs now clock token q).1
  unfolding candidates recover_expired_locked
  claim-Advances w queues secs now clock token q sane s =
      (claim-cases env {Post = Moves q} w queues secs now clock token q (λ _. same q s)
        (λ current _ _. swept-Advances current q s)
        λ current _.
          let kept = swept-IsSound current q sane s in
          record {
            at =
                Advances-trans q (swept env current q) _ (swept-Advances current q s)
                  (leased-Advances w token (to_ℕ secs) current queues (swept env current q) _ kept
                    (All-select _ _ _ (stored_tasks (swept env current q) kept))).at;
          }).at

  recover-Advances :
      (now : Option DateTime) (clock : ℕ) (q : Queue P)
      → IsSound q
      → Advances q (recover_expired env now clock q).1
  unfolding recover_expired
  recover-Advances now clock q s =
      (bind-lift {Post = Moves q} _ _ q (λ _ _. same q s)
        λ current _. record { at = swept-Advances current q s }).at

  pub after-Advances :
      (c : Call P) (q : Queue P)
      → Sane env
      → IsSound q
      → IsFresh env c q
      → Advances q (after env c q)
  unfolding after
  after-Advances (enqueue_call a clock id) q sane s fresh = enqueue-Advances q s a clock id fresh
  after-Advances (claim_call w qs secs now clock token) q sane s fresh =
      claim-Advances w qs secs now clock token q sane s
  after-Advances (heartbeat_call id w token secs now clock) q sane s fresh =
      heartbeat-Advances q s id w token secs now clock
  after-Advances (complete_call id w token r now clock) q sane s fresh =
      complete-Advances q s id w token r now clock
  after-Advances (fail_call id w token code retryable now clock) q sane s fresh =
      fail-Advances q s id w token code retryable now clock
  after-Advances (cancel_call id now clock) q sane s fresh = cancel-Advances q s id now clock
  after-Advances (acknowledge_call id w token now clock) q sane s fresh =
      acknowledge-Advances q s id w token now clock
  after-Advances (recover_call now clock) q sane s fresh = recover-Advances now clock q s

  pub Run-IsSound : (q r : Queue P) → Sane env → IsSound q → Run env q r → IsSound r
  Run-IsSound q _ sane s start = s
  Run-IsSound q _ sane s (call {r} run c fresh) =
      let sr = Run-IsSound q r sane s run in
      record {
        valid = after-AllValid env c r sane sr.valid;
        distinct = (after-Advances c r sane sr fresh).distinct;
      }

  -- Over any run of calls from a sound queue, every task stays in the queue and only moves forward:
  -- its identity and its request never change, its attempts never fall, a request to cancel it is
  -- never withdrawn, it never goes back to `queued`, and once terminal it is never changed again.
  -- New ids are not in use, and the entropy source keeps to the unit interval.
  pub Run-Extends : (q r : Queue P) → Sane env → IsSound q → Run env q r → Extends q r
  Run-Extends q _ sane s start = Extends-refl q
  Run-Extends q _ sane s (call {r} run c fresh) =
      Extends-trans q r _ (Run-Extends q r sane s run)
        (after-Advances c r sane (Run-IsSound q r sane s run) fresh).extends
