-- ===== src/Automation/Tasks/Evolution.antt =====
-- How a task may change over the life of the queue (backend/app/automation/tasks.py).
use qa_platform_learning.Common.Tests.{
  ℕ, ◌≤◌, ◌≡◌, refl, ◌⊎◌, ◌∙◌, inl, inr, arith, ap, sym, Bool-cases, Bool, true, false, String,
  Option, none, some, [], ◌∷◌, nat_beq, if◌then◌else◌, nat_keyed, text_keyed, pair_keyed, ◌==◌,
}
use mathlib.Core.Path.{subst}
use mathlib.Core.Option.{some-injective}
use qa_platform_learning.Common.Dict.{Dict, lookup, insert, lookup-insert, Distinct}
use qa_platform_learning.Common.Result.{Result-cases}
use qa_platform_learning.Automation.Tasks.Model.{is_terminal, queued, Task}
use qa_platform_learning.Automation.Tasks.State.{Env, Queue, status_is_waiting, is_running, store}
use qa_platform_learning.Automation.Tasks.Recovery.{wait_retry, expire, recover_loop, is_expired}
use qa_platform_learning.Automation.Tasks.Claim.{leased}
use qa_platform_learning.Automation.Tasks.Settle.{cancel_task, completed, failed_task}

module _ {P : Type 0} where
  -- A later state of a task: what it is never changes, its attempts never fall, a request to cancel
  -- is never withdrawn, it is never queued again, and once terminal it never changes at all.
  pub record Evolves (t u : Task P) : Type 0 where
    pub same_id : u.id ≡ t.id
    pub same_type : u.task_type ≡ t.task_type
    pub same_payload : u.payload ≡ t.payload
    pub same_queue : u.queue ≡ t.queue
    pub same_priority : u.priority ≡ t.priority
    pub same_key : u.idempotency_key ≡ t.idempotency_key
    pub same_fingerprint : u.request_fingerprint ≡ t.request_fingerprint
    pub same_source : u.source_schedule_id ≡ t.source_schedule_id
    pub same_maximum : u.max_attempts ≡ t.max_attempts
    pub same_creation : u.created_at ≡ t.created_at
    pub more_attempts : t.attempts ≤ u.attempts
    pub still_cancelling : t.cancel_requested ≡ true → u.cancel_requested ≡ true
    pub not_requeued : u.status ≡ queued → t.status ≡ queued
    pub final : is_terminal t.status ≡ true → u ≡ t

  pub Evolves-refl : (t : Task P) → Evolves t t
  Evolves-refl t = ground arith

  pub Evolves-trans : (t u v : Task P) → Evolves t u → Evolves u v → Evolves t v
  Evolves-trans t u v a b = record {
    same_id = b.same_id ∙ a.same_id;
    same_type = b.same_type ∙ a.same_type;
    same_payload = b.same_payload ∙ a.same_payload;
    same_queue = b.same_queue ∙ a.same_queue;
    same_priority = b.same_priority ∙ a.same_priority;
    same_key = b.same_key ∙ a.same_key;
    same_fingerprint = b.same_fingerprint ∙ a.same_fingerprint;
    same_source = b.same_source ∙ a.same_source;
    same_maximum = b.same_maximum ∙ a.same_maximum;
    same_creation = b.same_creation ∙ a.same_creation;
    more_attempts = omega arith;
    still_cancelling = λ c. b.still_cancelling (a.still_cancelling c);
    not_requeued = λ c. a.not_requeued (b.not_requeued c);
    final = λ c. b.final (ap (λ (w : Task P). is_terminal w.status) (a.final c) ∙ c) ∙ a.final c;
  }

  -- Every task of `q` is still there in `q'`, in a later state.
  pub record Extends (q q' : Queue P) : Type 0 where
    pub later :
        (id : ℕ) (t : Task P)
        → lookup id q.tasks ≡ some t
        → (u : Task P) × (lookup id q'.tasks ≡ some u) × Evolves t u

  pub Extends-refl : (q : Queue P) → Extends q q
  Extends-refl q = record { later = λ id t found. (t, found, Evolves-refl t) }

  pub Extends-trans : (q r s : Queue P) → Extends q r → Extends r s → Extends q s
  Extends-trans q r s a b = record {
    later = λ id t found.
        let (u, fu, eu) = a.later id t found in
        let (v, fv, ev) = b.later id u fu in (v, fv, Evolves-trans t u v eu ev);
  }

  pub same_entry :
      (id j : ℕ) (q : Queue P) (t v : Task P)
      → id ≡ j
      → lookup id q.tasks ≡ some t
      → lookup j q.tasks ≡ some v
      → t ≡ v
  same_entry id j q t v ij found at =
      some-injective _ _ (sym found ∙ ap (λ (k : ℕ). lookup k q.tasks) ij ∙ at)

  -- Writing a later state of the task that stands under its id.
  pub store-Extends :
      (id : ℕ) (t u : Task P) (q : Queue P) (n : ℕ)
      → lookup id q.tasks ≡ some t
      → t.id ≡ id
      → Evolves t u
      → Extends q (store u (record q { draws = n }))
  store-Extends id t u q n found under e = record {
    later = λ j v at. go j v at (Bool-cases (u.id == j));
  }
    where
      go :
          (j : ℕ) (v : Task P)
          → lookup j q.tasks ≡ some v
          → ((u.id == j) ≡ true) ⊎ ((u.id == j) ≡ false)
          → (w : Task P) × (lookup j (insert u.id u q.tasks) ≡ some w) × Evolves v w
      go j v at (inl same) = (
        u,
        ground (arith, lookup-insert u.id j u q.tasks),
        subst (λ w. Evolves w u) (same_entry id j q t v (ground (arith, e.same_id)) found at) e,
      )
      go j v at (inr other) = (v, ground (arith, lookup-insert u.id j u q.tasks), Evolves-refl v)

module _ {P : Type 0} (env : Env P) where
  expire-Evolves :
      (now : ℕ) (t : Task P) (n : ℕ) → is_running t.status ≡ true → Evolves t (expire env now t n).1
  unfolding expire wait_retry
  expire-Evolves now t n runs = ground arith

  pub failed_task-Evolves :
      (now : ℕ) (code : String) (retryable : Bool) (t : Task P) (n : ℕ)
      → is_running t.status ≡ true
      → Evolves t (failed_task env now code retryable t n).1
  unfolding failed_task wait_retry
  failed_task-Evolves now code retryable t n runs = ground arith

  pub completed-Evolves :
      (now : ℕ) (r : P) (t : Task P)
      → is_running t.status ≡ true
      → Evolves t (completed env now r t)
  unfolding completed
  completed-Evolves now r t runs = ground arith

  pub cancel_task-Evolves : (now : ℕ) (t : Task P) → Evolves t (cancel_task now t)
  unfolding cancel_task
  cancel_task-Evolves now t = ground arith

  pub leased-Evolves :
      (worker token : String) (secs now : ℕ) (t : Task P)
      → status_is_waiting t.status ≡ true
      → Evolves t (leased env worker token secs now t)
  leased-Evolves worker token secs now t waits = ground arith

  -- What the scan for expired leases makes of a task: a later state, and the same task where its
  -- lease has not expired.
  abbrev pub Later : ℕ → Task P → Option (Task P) → Type 0
  Later now t none = ⊥
  Later now t (some u) = Evolves t u × (is_expired now t ≡ false → u ≡ t)

  abbrev pub settled : ℕ → Task P → ℕ → Task P
  settled now s n = if is_expired now s then (expire env now s n).1 else s

  pub recover_loop-cons :
      (now k : ℕ) (s : Task P) (d : Dict ℕ (Task P)) (n : ℕ)
      → (rest : Dict ℕ (Task P)) × ((recover_loop env now ((k, s) ∷ d) n).1
          ≡ (k, settled now s n) ∷ rest)
        × (((m : ℕ) × (rest ≡ (recover_loop env now d m).1)) ⊎ (rest ≡ d))
  unfolding recover_loop
  recover_loop-cons now k s d n = elim (Bool-cases (is_expired now s)) [
    | inl old ↦ elim (Result-cases (expire env now s n).0) [
      | inl (a, e) ↦ (
        (recover_loop env now d (expire env now s n).2).1,
        ground arith,
        inl ((expire env now s n).2, refl),
      )
      | inr (x, e) ↦ (d, ground arith, inr refl)
    ]
    | inr live ↦ ((recover_loop env now d n).1, ground arith, inl (n, refl))
  ]

  untouched-Later : (now : ℕ) (t : Task P) → Later now t (some t)
  untouched-Later now t = (Evolves-refl t, λ _. refl)

  lookup-Later :
      (now : ℕ) (d : Dict ℕ (Task P)) (id : ℕ) (t : Task P)
      → lookup id d ≡ some t
      → Later now t (lookup id d)
  lookup-Later now d id t found = rw found (untouched-Later now t)

  settled_entry-Later : (now : ℕ) (t : Task P) (n : ℕ) → Later now t (some (settled now t n))
  settled_entry-Later now t n = elim (Bool-cases (is_expired now t)) [
    | inl old ↦ rw old (expire-Evolves now t n (ground arith), λ live. cc)
    | inr live ↦ rw live (Evolves-refl t, λ _. refl)
  ]

  pub recover_loop-Later :
      (now : ℕ) (d : Dict ℕ (Task P)) (n id : ℕ) (t : Task P)
      → lookup id d ≡ some t
      → Later now t (lookup id (recover_loop env now d n).1)
  recover_loop-Later now [] n id t found = absurd (cc)
  recover_loop-Later now ((k, s) ∷ d) n id t found =
      let (rest, e, origin) = recover_loop-cons now k s d n in
      rw e (elim (Bool-cases (nat_beq k id)) [
        | inl here ↦ rw here (
            subst (λ w. Later now w (some (settled now s n)))
              (some-injective _ _ (rw here at found)) (settled_entry-Later now s n))
        | inr there ↦ rw there (elim origin [
          | inl (m, e') ↦ rw e' (recover_loop-Later now d m id t (rw there at found))
          | inr e' ↦ rw e' (lookup-Later now d id t (rw there at found))
        ])
      ])

  pub recover_later :
      (now : ℕ) (q : Queue P) (n : ℕ)
      → Extends q (record q { tasks = (recover_loop env now q.tasks q.draws).1; draws = n })
  recover_later now q n = record {
    later = λ id t found.
        taken now t (lookup id (recover_loop env now q.tasks q.draws).1)
          (recover_loop-Later now q.tasks q.draws id t found);
  }
    where
      taken :
          (now : ℕ) (t : Task P) (o : Option (Task P))
          → Later now t o
          → (u : Task P) × (o ≡ some u) × Evolves t u
      taken now t none h = absurd h
      taken now t (some u) h = (u, refl, h.0)

  recover_loop-missing :
      (now : ℕ) (d : Dict ℕ (Task P)) (n id : ℕ)
      → lookup id d ≡ none
      → lookup id (recover_loop env now d n).1 ≡ none
  unfolding recover_loop
  recover_loop-missing now [] n id h = refl
  recover_loop-missing now ((k, s) ∷ d) n id h =
      let (rest, e, origin) = recover_loop-cons now k s d n in
      rw e (elim (Bool-cases (nat_beq k id)) [
        | inl here ↦ absurd (cc (rw here at h))
        | inr there ↦ rw there (elim origin [
          | inl (m, e') ↦ rw e' (recover_loop-missing now d m id (rw there at h))
          | inr e' ↦ rw e' (rw there at h)
        ])
      ])

  pub recover_loop-Distinct :
      (now : ℕ) (d : Dict ℕ (Task P)) (n : ℕ) → Distinct d → Distinct (recover_loop env now d n).1
  unfolding recover_loop
  recover_loop-Distinct now [] n h = tt
  recover_loop-Distinct now ((k, s) ∷ d) n h =
      let (rest, e, origin) = recover_loop-cons now k s d n in
      rw e (elim origin [
        | inl (m, e') ↦
            rw e' (recover_loop-missing now d m k h.0, recover_loop-Distinct now d m h.1)
        | inr e' ↦ rw e' h
      ])
