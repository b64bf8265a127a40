-- ===== src/Automation/Tasks/Preserved.antt =====
-- Every method of the queue keeps its tasks valid (backend/app/automation/tasks.py).
use qa_platform_learning.Common.Tests.{
  ℕ, ◌≡◌, refl, ◌∙◌, arith, Bool, true, false, String, Option, some, List, [], ◌∷◌, if◌then◌else◌,
  nat_keyed, text_keyed, pair_keyed,
}
use qa_platform_learning.Common.Lists.{All, All-select}
use qa_platform_learning.Common.Dict.{Dict, lookup, Every, Every-lookup, Every-insert, Every-values}
use qa_platform_learning.Common.Result.{Result}
use qa_platform_learning.Common.Holds.{Holds, Holds-pure, bind-lift, bind-modify}
use qa_platform_learning.Common.Time.{DateTime, ℤ}
use qa_platform_learning.Automation.Errors.{Error}
use qa_platform_learning.Automation.Tasks.Model.{Task}
use qa_platform_learning.Automation.Tasks.State.{Env, Queue, status_is_waiting, is_running, store}
use qa_platform_learning.Automation.Tasks.Recovery.{
  swept, expire, recover_loop, recover_expired, recover_expired_locked,
}
use qa_platform_learning.Automation.Tasks.Enqueue.{EnqueueArgs, enqueue}
use qa_platform_learning.Automation.Tasks.Claim.{
  claim, take_lease, least, candidates, is_candidate, precedes,
}
use qa_platform_learning.Automation.Tasks.Settle.{
  request_cancel, heartbeat, complete, failed_task, fail, acknowledge_cancel,
}
use qa_platform_learning.Automation.Tasks.Invariant.{
  IsValid, Filed, AllValid, Sane, expire-IsValid, failed_task-IsValid, completed-IsValid,
  leased-IsValid, cancel_task-IsValid, new_task-IsValid,
}
use qa_platform_learning.Automation.Tasks.Cases.{
  heartbeat-cases, complete-cases, acknowledge_cancel-cases, fail-cases, request_cancel-cases,
  enqueue-cases, claim-cases,
}

module _ {P : Type 0} (env : Env P) where
  store-AllValid :
      (t : Task P) (q : Queue P) (n : ℕ)
      → AllValid q
      → IsValid t
      → AllValid (store t (record q { draws = n }))
  store-AllValid t q n h v =
      Every-insert Filed t.id t q.tasks h (record { under_id = refl; valid = v })

  -- The outcome of a method leaves the tasks valid.
  abbrev Keeps : {B : Type 0} → Result Error B → Queue P → Type 0
  Keeps r q = AllValid q

  pub filed :
      (id : ℕ) (t : Task P) (q : Queue P) → AllValid q → lookup id q.tasks ≡ some t → IsValid t
  filed id t q h found = (Every-lookup Filed id t q.tasks h found).valid

  module _ (id : ℕ) (worker token : String) (now : Option DateTime) (clock : ℕ) (q : Queue P)
      (h : AllValid q) where
    stored : (t : Task P) → IsValid t → AllValid (store t q)
    stored t v = store-AllValid t q q.draws h v

    -- A heartbeat, accepted or refused, keeps every task of the queue valid.
    pub heartbeat-AllValid :
        (secs : ℤ) → AllValid (heartbeat env id worker token secs now clock q).1
    heartbeat-AllValid secs =
        (heartbeat-cases env id worker token now clock q {Post = Keeps} (λ _. h) secs
          λ current t l. let v = filed id t q h l.0 in let runs = l.2 in stored _ (ground arith)).at

    -- A completion, accepted or refused, keeps every task of the queue valid.
    pub complete-AllValid : (r : Option P) → AllValid (complete env id worker token r now clock q).1
    complete-AllValid r =
        (complete-cases env id worker token now clock q {Post = Keeps} (λ _. h) r
          λ current t l. stored _ (completed-IsValid env current _ t l.2 (filed id t q h l.0))).at

    pub acknowledge_cancel-AllValid :
        AllValid (acknowledge_cancel env id worker token now clock q).1
    acknowledge_cancel-AllValid =
        (acknowledge_cancel-cases env id worker token now clock q {Post = Keeps} (λ _. h)
          λ current t l asked.
            let v = filed id t q h l.0 in let runs = l.2 in stored _ (ground arith)).at

    pub fail-AllValid :
        (code : String) (retryable : Bool)
        → Sane env
        → AllValid (fail env id worker token code retryable now clock q).1
    fail-AllValid code retryable sane =
        (fail-cases env id worker token now clock q {Post = Keeps} (λ _. h) code retryable
          λ current t l. store-AllValid _ q (failed_task env current code retryable t q.draws).2 h (
            failed_task-IsValid env current code retryable t q.draws sane l.2
              (filed id t q h l.0))).at

  pub request_cancel-AllValid :
      (id : ℕ) (now : Option DateTime) (clock : ℕ) (q : Queue P)
      → AllValid q
      → AllValid (request_cancel id now clock q).1
  request_cancel-AllValid id now clock q h =
      (request_cancel-cases env id now clock q {Post = Keeps} (λ _. h)
        λ current t found.
          store-AllValid _ q q.draws h
            (cancel_task-IsValid env current t (filed id t q h found))).at

  pub enqueue-AllValid :
      (a : EnqueueArgs P) (clock fresh_id : ℕ) (q : Queue P)
      → AllValid q
      → AllValid (enqueue env a clock fresh_id q).1
  enqueue-AllValid a clock fresh_id q h =
      (enqueue-cases env a clock fresh_id q {Post = Keeps} (λ _. h) (λ _ _ _ _ _ _ _ _. h)
        λ due fp _ _ _ accepted.
          store-AllValid _ q q.draws h (new_task-IsValid env a due clock fresh_id fp accepted)).at

  expire-id : (now : ℕ) (t : Task P) (n : ℕ) → (expire env now t n).1.id ≡ t.id
  unfolding expire
  expire-id now t n = ground arith

  expire-Filed :
      (k now : ℕ) (t : Task P) (n : ℕ)
      → Sane env
      → is_running t.status ≡ true
      → Filed k t
      → Filed k (expire env now t n).1
  expire-Filed k now t n sane runs h = record {
    under_id = expire-id now t n ∙ h.under_id;
    valid = expire-IsValid env now t n sane runs h.valid;
  }

  -- The scan for expired leases keeps every task valid, also where it breaks off.
  pub recover_loop-Every :
      (now : ℕ) (d : Dict ℕ (Task P)) (n : ℕ)
      → Sane env
      → Every Filed d
      → Every Filed (recover_loop env now d n).1
  unfolding recover_loop
  recover_loop-Every now [] n sane h = tt
  recover_loop-Every now ((k, t) ∷ d) n sane h = ground (
    arith,
    recover_loop-Every now d n sane h.1,
    recover_loop-Every now d (expire env now t n).2 sane h.1,
    expire-Filed k now t n sane,
  )

  pub least-All :
      (Q : Task P → Type 0) (t : Task P) (ts : List (Task P)) → Q t → All Q ts → Q (least t ts)
  unfolding least
  least-All Q t [] h hs = h
  least-All Q t (u ∷ us) h hs =
      least-All Q (if precedes u t then u else t) us (chosen (precedes u t)) hs.1
    where
      chosen : (b : Bool) → Q (if b then u else t)
      chosen true = hs.0
      chosen false = h

  pub candidate_may_run :
      (queues : List String) (now : ℕ) (t : Task P)
      → is_candidate queues now t ≡ true
      → (status_is_waiting t.status ≡ true) × (t.cancel_requested ≡ false)
  unfolding is_candidate
  candidate_may_run queues now t h = ground arith

  take_lease-Keeps :
      (worker token : String) (secs now : ℕ) (queues : List String) (q : Queue P)
      (ts : List (Task P))
      → AllValid q
      → All (λ t. IsValid t × (is_candidate queues now t ≡ true)) ts
      → Holds Keeps (take_lease env worker token secs now ts) q
  unfolding take_lease
  take_lease-Keeps worker token secs now queues q [] h hs = Holds-pure _ q h
  take_lease-Keeps worker token secs now queues q (t ∷ ts) h hs =
      let (v, c) = least-All _ t ts hs.0 hs.1 in
      let (waits, wanted) = candidate_may_run queues now (least t ts) c in
      bind-modify _ _ q (
        Holds-pure _ _ (
          store-AllValid _ q q.draws h
            (leased-IsValid env worker token secs now (least t ts) waits wanted v)))

  -- A claim keeps every task valid, whether it leases a task, finds none or is refused; so does the
  -- recovery of expired leases.
  pub claim-AllValid :
      (worker : String) (queues : List String) (secs : ℤ) (now : Option DateTime) (clock : ℕ)
      (token : String) (q : Queue P)
      → Sane env
      → AllValid q
      → AllValid (claim env worker queues secs now clock token q).1
  unfolding candidates
  claim-AllValid worker queues secs now clock token q sane h =
      (claim-cases env {Post = Keeps} worker queues secs now clock token q (λ _. h)
        (λ current _ _. kept current)
        λ current _.
          take_lease-Keeps worker token _ current queues _ _ (kept current)
            (All-select _ _ _ (Every-values Filed _ (λ k t f. f.valid) _ (kept current)))).at
    where
      kept : (current : ℕ) → AllValid (swept env current q)
      kept current =
          unfold recover_expired_locked in recover_loop-Every current q.tasks q.draws sane h

  pub recover_expired-AllValid :
      (now : Option DateTime) (clock : ℕ) (q : Queue P)
      → Sane env
      → AllValid q
      → AllValid (recover_expired env now clock q).1
  unfolding recover_expired recover_expired_locked
  recover_expired-AllValid now clock q sane h =
      (bind-lift {Post = Keeps} _ _ q (λ _ _. h)
        λ current _. record { at = recover_loop-Every current q.tasks q.draws sane h }).at
