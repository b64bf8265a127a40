-- ===== src/Automation/Tasks/Claims.antt =====
-- Which task `claim` takes (backend/app/automation/tasks.py).
use qa_platform_learning.Common.Tests.{
  nat_beq_iff, ℕ, ◌≡◌, refl, ◌∙◌, inl, inr, arith, ap, sym, Bool-cases, true, false, String, Option,
  none, some, List, [], ◌∷◌, nat_beq, nat_keyed, text_keyed, pair_keyed,
}
use mathlib.Core.Path.{subst}
use qa_platform_learning.Common.Lists.{All, All-map, Among, All-select}
use qa_platform_learning.Common.Dict.{lookup, insert, lookup-insert}
use qa_platform_learning.Common.Result.{Result, ok, err}
use qa_platform_learning.Common.Holds.{Holds, Holds-pure, bind-modify}
use qa_platform_learning.Common.Time.{DateTime, ℤ, to_ℕ}
use qa_platform_learning.Automation.Errors.{Error, resolve}
use qa_platform_learning.Automation.Tasks.Model.{TaskStatus, Task, ClaimedTask}
use qa_platform_learning.Automation.Tasks.State.{Env, Queue, status_is_waiting, is_running, store}
use qa_platform_learning.Automation.Tasks.Recovery.{
  swept, recover_loop, is_expired, recover_expired_locked,
}
use qa_platform_learning.Automation.Tasks.Claim.{
  claim, take_lease, leased, least, candidates, is_candidate, precedes,
}
use qa_platform_learning.Automation.Tasks.Invariant.{IsValid, Sane}
use qa_platform_learning.Automation.Tasks.Cases.{claim-cases}
use qa_platform_learning.Automation.Tasks.Preserved.{least-All, candidate_may_run}
use qa_platform_learning.Automation.Tasks.Evolution.{same_entry, recover_loop-Later, Later}
use qa_platform_learning.Automation.Tasks.Lasting.{IsSound, swept-IsSound, stored_tasks}

module _ {P : Type 0} where
  -- `precedes` is a strict order: what precedes nothing that came before precedes no later pick.
  precedes_irrefl : (t : Task P) → precedes t t ≡ false
  unfolding precedes
  precedes_irrefl t = ground arith

  precedes_step :
      (v t u : Task P) → precedes v t ≡ false → precedes u t ≡ true → precedes v u ≡ false
  unfolding precedes
  precedes_step v t u h k = ground arith

  least-sooner :
      (t u : Task P) (us : List (Task P)) → precedes u t ≡ true → least u us ≡ least t (u ∷ us)
  unfolding least
  least-sooner t u us e = rw e refl

  least-later :
      (t u : Task P) (us : List (Task P)) → precedes u t ≡ false → least t us ≡ least t (u ∷ us)
  unfolding least
  least-later t u us e = rw e refl

  -- No task of the list precedes this one.
  abbrev Leads : List (Task P) → Task P → Type 0
  Leads ts m = All (λ u. precedes u m ≡ false) ts

  least-first :
      (seen : List (Task P)) (t : Task P) (ts : List (Task P))
      → Leads seen t
      → Leads seen (least t ts) × Leads (t ∷ ts) (least t ts)
  unfolding least
  least-first seen t [] h = (h, (precedes_irrefl t, tt))
  least-first seen t (u ∷ us) h = elim (Bool-cases (precedes u t)) [
    | inl sooner ↦
        let old =
          All-map _ (λ v. precedes v u ≡ false) (λ v k. precedes_step v t u k sooner) seen h in
        let here = precedes_step t t u (precedes_irrefl t) sooner in
        let (past, rest) = least-first (t ∷ seen) u us (here, old) in
        subst (λ m. Leads seen m × Leads (t ∷ u ∷ us) m) (least-sooner t u us sooner)
          (past.1, (past.0, rest))
    | inr later ↦
        let (past, rest) = least-first (u ∷ seen) t us (later, h) in
        subst (λ m. Leads seen m × Leads (t ∷ u ∷ us) m) (least-later t u us later)
          (past.1, (rest.0, (past.0, rest.1)))
  ]

  least-Among : (t : Task P) (ts : List (Task P)) → Among (least t ts) (t ∷ ts)
  unfolding least
  least-Among t [] = inl refl
  least-Among t (u ∷ us) = elim (Bool-cases (precedes u t)) [
    | inl sooner ↦
        subst (λ m. Among m (t ∷ u ∷ us)) (least-sooner t u us sooner) (inr (least-Among u us))
    | inr later ↦
        subst (λ m. Among m (t ∷ u ∷ us)) (least-later t u us later)
          (elim (least-Among t us) [ inl e ↦ inl e | inr m ↦ inr (inr m) ])
  ]

  -- A write of a waiting task leaves a running one alone.
  beside :
      (q : Queue P) (id : ℕ) (t x v : Task P)
      → lookup id q.tasks ≡ some t
      → is_running t.status ≡ true
      → lookup x.id q.tasks ≡ some x
      → status_is_waiting x.status ≡ true
      → lookup id (insert x.id v q.tasks) ≡ some t
  beside q id t x v found runs own waits = elim (Bool-cases (nat_beq x.id id)) [
    | inl same ↦
        let e = same_entry x.id id q x t ((nat_beq_iff x.id id).0 same) own found in
        absurd (clash x.status t.status (ap (λ (y : Task P). y.status) e) waits runs)
    | inr other ↦ rw (lookup-insert x.id id v q.tasks) (rw other found)
  ]
    where
      clash : (s r : TaskStatus) → s ≡ r → status_is_waiting s ≡ true → is_running r ≡ true → ⊥
      clash s r e w k = ground arith

module _ {P : Type 0} (env : Env P) where
  -- How a claim at the time `current` can end: with no candidate, the swept queue as it is; else
  -- with a candidate that no other precedes, leased, and written back.
  abbrev pub TakesFirst :
      String → List String → ℕ → ℕ → String → Queue P → Option (ClaimedTask P) → Queue P → Type 0
  TakesFirst w queues secs current token q none q' =
      (candidates queues current (swept env current q) ≡ []) × (q' ≡ swept env current q)
  TakesFirst w queues secs current token q (some c) q' =
      (t : Task P) × Among t (candidates queues current (swept env current q))
      × All (λ u. precedes u t ≡ false) (candidates queues current (swept env current q))
      × (c.task ≡ leased env w token secs current t)
      × (q' ≡ store c.task (swept env current q))

  abbrev ClaimEnds :
      String
      → List String
      → ℤ
      → Option DateTime
      → ℕ
      → String
      → Queue P
      → Result Error (Option (ClaimedTask P))
      → Queue P
      → Type 0
  ClaimEnds w queues secs now clock token q (err e) q' = Unit
  ClaimEnds w queues secs now clock token q (ok o) q' =
      (current : ℕ) × (resolve now clock ≡ ok current)
      × TakesFirst w queues (to_ℕ secs) current token q o q'

  take_lease-first :
      (w : String) (queues : List String) (secs : ℤ) (now : Option DateTime) (clock : ℕ)
      (token : String) (q : Queue P) (current : ℕ)
      → resolve now clock ≡ ok current
      → (ts : List (Task P)) → candidates queues current (swept env current q) ≡ ts
      → Holds
          (ClaimEnds w queues secs now clock token q)
          (take_lease env w token (to_ℕ secs) current ts)
          (swept env current q)
  unfolding take_lease
  take_lease-first w queues secs now clock token q current at [] e =
      Holds-pure _ _ (current, at, (e, refl))
  take_lease-first w queues secs now clock token q current at (t ∷ ts) e = bind-modify _ _ _ (
      Holds-pure _ _ (
        current,
        at,
        (least t ts, rw e (least-Among t ts), rw e (least-first [] t ts tt).1, refl, refl),
      ))

  claim-ends :
      (w : String) (queues : List String) (secs : ℤ) (now : Option DateTime) (clock : ℕ)
      (token : String) (q : Queue P)
      → Holds
          (ClaimEnds w queues secs now clock token q)
          (claim env w queues secs now clock token)
          q
  claim-ends w queues secs now clock token q =
      claim-cases env w queues secs now clock token q (λ _. tt) (λ _ _ _. tt)
        λ current at. take_lease-first w queues secs now clock token q current at _ refl

  -- A claim that succeeds first recovers the expired leases. Then it takes, of the tasks that are
  -- waiting in the worker's queues, available and not cancelled, one that no other precedes (by
  -- falling priority, then availability, creation and id), leases it to the worker, and changes no
  -- other task; it returns nothing exactly when there is no such task.
  pub claim-TakesFirst :
      (w : String) (queues : List String) (secs : ℤ) (now : Option DateTime) (clock : ℕ)
      (token : String) (q q' : Queue P) (o : Option (ClaimedTask P))
      → claim env w queues secs now clock token q ≡ (ok o, q')
      → (current : ℕ) × (resolve now clock ≡ ok current)
        × TakesFirst w queues (to_ℕ secs) current token q o q'
  claim-TakesFirst w queues secs now clock token q q' o e =
      subst
        (λ (p : Result Error (Option (ClaimedTask P)) × Queue P).
          ClaimEnds w queues secs now clock token q p.0 p.1)
        e (claim-ends w queues secs now clock token q).at

  live_after_sweep :
      (current : ℕ) (q : Queue P) (id : ℕ) (t : Task P)
      → lookup id q.tasks ≡ some t
      → is_expired current t ≡ false
      → lookup id (swept env current q).tasks ≡ some t
  unfolding recover_expired_locked
  live_after_sweep current q id t found live =
      same_after (lookup id (recover_loop env current q.tasks q.draws).1)
        (recover_loop-Later env current q.tasks q.draws id t found)
    where
      same_after : (o : Option (Task P)) → Later env current t o → o ≡ some t
      same_after none h = absurd h
      same_after (some u) h = ap {B = Option (Task P)} some (h.1 live)

  take_lease-beside :
      (w : String) (queues : List String) (secs current : ℕ) (token : String) (q : Queue P) (id : ℕ)
      (t : Task P)
      → lookup id q.tasks ≡ some t
      → is_running t.status ≡ true
      → (ts : List (Task P))
      → All
          (λ u.
            (IsValid u × (lookup u.id q.tasks ≡ some u)) × (is_candidate queues current u ≡ true))
          ts
      → Holds (λ r q'. lookup id q'.tasks ≡ some t) (take_lease env w token secs current ts) q
  unfolding take_lease
  take_lease-beside w queues secs current token q id t found runs [] hs = Holds-pure _ q found
  take_lease-beside w queues secs current token q id t found runs (u ∷ us) hs =
      let (own, c) = least-All env _ u us hs.0 hs.1 in
      let (waits, wanted) = candidate_may_run env queues current (least u us) c in
      bind-modify _ _ q (
        Holds-pure _ _ (
          beside q id t (least u us) (leased env w token secs current (least u us)) found runs own.1
            waits))

  -- A live lease is exclusive: a claim at a time when the lease of a running task has not expired
  -- leaves that task exactly as it is, whatever the claim does.
  pub live_lease_exclusive :
      (w : String) (queues : List String) (secs : ℤ) (now : Option DateTime) (clock current : ℕ)
      (token : String) (q : Queue P) (id : ℕ) (t : Task P)
      → Sane env
      → IsSound q
      → resolve now clock ≡ ok current
      → lookup id q.tasks ≡ some t
      → is_running t.status ≡ true
      → is_expired current t ≡ false
      → lookup id (claim env w queues secs now clock token q).1.tasks ≡ some t
  unfolding candidates
  live_lease_exclusive w queues secs now clock current token q id t sane s at found runs live =
      (claim-cases env {Post = λ r q'. lookup id q'.tasks ≡ some t} w queues secs now clock token q
        (λ _. found) (λ n e _. kept n e)
        λ n e.
          let sound = swept-IsSound env n q sane s in
          take_lease-beside w queues (to_ℕ secs) n token (swept env n q) id t (kept n e) runs _
            (All-select _ _ _ (stored_tasks (swept env n q) sound))).at
    where
      same_time : (n : ℕ) → resolve now clock ≡ ok n → current ≡ n
      same_time n e = cc

      kept : (n : ℕ) → resolve now clock ≡ ok n → lookup id (swept env n q).tasks ≡ some t
      kept n e =
          live_after_sweep n q id t found (ap (λ m. is_expired m t) (sym (same_time n e)) ∙ live)
