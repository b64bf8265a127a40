-- ===== src/Automation/Tasks/Idempotency.antt =====
-- Idempotent enqueueing (backend/app/automation/tasks.py).
use qa_platform_learning.Common.Tests.{
  ◌≢◌, ℕ, ◌≡◌, refl, ◌∙◌, arith, ap, sym, true, false, String, none, some, nat_keyed, text_keyed,
  pair_keyed,
}
use text.Mathlib.TextEquality.{eq_iff}
use text.Mathlib.TextPositions.{eq_refl}
use mathlib.Core.Path.{subst}
use qa_platform_learning.Common.Dict.{Dict, lookup-insert_self, lookup}
use qa_platform_learning.Common.Result.{Result, ok, err, ◌>>=◌}
use qa_platform_learning.Common.Holds.{Holds}
use qa_platform_learning.Automation.Errors.{Error, conflict, resolve}
use qa_platform_learning.Automation.Tasks.Model.{Task, EnqueueResult}
use qa_platform_learning.Automation.Tasks.State.{Env, Queue, digest}
use qa_platform_learning.Automation.Tasks.Enqueue.{
  EnqueueArgs, request_value, new_task, filed_new, answer, replay, enqueue, previous_of,
}
use qa_platform_learning.Automation.Tasks.Cases.{enqueue-cases}

module _ {P : Type 0} (env : Env P) where
  -- `enqueue` past its first two checks.
  enqueue-answer :
      (a : EnqueueArgs P) (clock id due : ℕ) (fp : String) (q : Queue P)
      → resolve a.available_at clock ≡ ok due
      → digest env (env.encode_request (request_value a due)) ≡ ok fp
      → enqueue env a clock id q ≡ answer a due clock id fp (previous_of a q.idempotency) q
  unfolding enqueue ◌>>=◌
  enqueue-answer a clock id due fp q at print = rw (at, print) refl

  -- The fingerprint of a request does not depend on the time of the call.
  request_value-stable :
      (a : EnqueueArgs P) (due due' clock clock' : ℕ)
      → resolve a.available_at clock ≡ ok due
      → resolve a.available_at clock' ≡ ok due'
      → request_value a due ≡ request_value a due'
  request_value-stable a due due' clock clock' e e' = ground arith

  -- What an enqueue that made a new task has done.
  abbrev Made : EnqueueArgs P → ℕ → ℕ → Queue P → Result Error (EnqueueResult P) → Queue P → Type 0
  Made a clock id q (err e) q' = Unit
  Made a clock id q (ok res) q' =
      res.replayed ≡ false
      → (due : ℕ) × (fp : String) × (resolve a.available_at clock ≡ ok due)
        × (digest env (env.encode_request (request_value a due)) ≡ ok fp)
        × (res.task ≡ new_task a due clock id fp)
        × (q' ≡ filed_new a res.task q)

  made :
      (a : EnqueueArgs P) (clock id : ℕ) (q : Queue P)
      → Holds (Made a clock id q) (enqueue env a clock id) q
  made a clock id q =
      enqueue-cases env a clock id q (λ _. tt) (λ _ _ _ _ _ _ _ _ replayed. cc)
        λ due fp at print _ _ new. (due, fp, at, print, refl, refl)

  again-resolves :
      (a : EnqueueArgs P) (clock clock' due : ℕ)
      → resolve a.available_at clock ≡ ok due
      → (due' : ℕ) × (resolve a.available_at clock' ≡ ok due')
        × (request_value a due ≡ request_value a due')
  again-resolves a clock clock' due at =
      (elim a.available_at [ none ↦ clock' | some _ ↦ due ], ground arith, ground arith)

  replay-same :
      (fp : String) (id : ℕ) (t : Task P) (q : Queue P)
      → lookup id q.tasks ≡ some t
      → replay fp (id, fp) q ≡ (ok (record { task = t; replayed = true }), q)
  unfolding replay ◌>>=◌
  replay-same fp id t q found = rw (eq_refl fp, found) refl

  replay-other :
      (fp prev : String) (id : ℕ) (q : Queue P)
      → fp ≢ prev
      → replay fp (id, prev) q ≡ (err conflict, q)
  unfolding replay ◌>>=◌
  replay-other fp prev id q ne = ground (arith, eq_iff fp prev)

  -- The entry that the key of a call has after it made a task.
  filed_entry :
      (a : EnqueueArgs P) (k : String) (clock id : ℕ) (q q' : Queue P) (res : EnqueueResult P)
      → a.idempotency_key ≡ some k
      → enqueue env a clock id q ≡ (ok res, q')
      → res.replayed ≡ false
      → (due : ℕ) × (fp : String) × (resolve a.available_at clock ≡ ok due)
        × (digest env (env.encode_request (request_value a due)) ≡ ok fp)
        × (lookup (a.task_type, k) q'.idempotency ≡ some (res.task.id, fp))
        × (lookup res.task.id q'.tasks ≡ some res.task)
  filed_entry a k clock id q q' res key e new =
      let (due, fp, at, print, task, state) =
        subst (λ (p : Result Error (EnqueueResult P) × Queue P). Made a clock id q p.0 p.1) e
          (made a clock id q).at new in
      let fp_of : res.task.request_fingerprint ≡ fp =
        ap (λ (t : Task P). t.request_fingerprint) task in
      (
        due,
        fp,
        at,
        print,
        rw (state, key)
            (lookup-insert_self (a.task_type, k) (res.task.id, res.task.request_fingerprint)
                q.idempotency
              ∙ ap (λ f. some (res.task.id, f)) fp_of),
        rw state (lookup-insert_self res.task.id res.task q.tasks),
      )

  previous-lookup :
      (a : EnqueueArgs P) (k : String) (d : Dict (String × String) (ℕ × String))
      → a.idempotency_key ≡ some k
      → previous_of a d ≡ lookup (a.task_type, k) d
  previous-lookup a k d key = rw key refl

  -- Enqueueing is idempotent: after a call with a key has made a task, the same call at any later
  -- time returns that task, marked as replayed, and changes nothing.
  pub enqueue_idempotent :
      (a : EnqueueArgs P) (k : String) (clock clock' id id' : ℕ) (q q' : Queue P)
      (res : EnqueueResult P)
      → a.idempotency_key ≡ some k
      → enqueue env a clock id q ≡ (ok res, q')
      → res.replayed ≡ false
      → enqueue env a clock' id' q' ≡ (ok (record { task = res.task; replayed = true }), q')
  enqueue_idempotent a k clock clock' id id' q q' res key e new =
      let (due, fp, at, print, entry, found) = filed_entry a k clock id q q' res key e new in
      let (due', at', same) = again-resolves a clock clock' due at in
      let print' : digest env (env.encode_request (request_value a due')) ≡ ok fp =
        ap (λ r. digest env (env.encode_request r)) (sym same) ∙ print in
      enqueue-answer a clock' id' due' fp q' at' print'
      ∙ ap (λ o. answer a due' clock' id' fp o q') (previous-lookup a k q'.idempotency key ∙ entry)
      ∙ replay-same fp res.task.id res.task q' found

  -- Texts of one digest are the same.
  abbrev pub IsCollisionFree : Type 0
  IsCollisionFree = (s t : String) → env.sha256 s ≡ env.sha256 t → s ≡ t

  digest-apart :
      (s t fp fp' : String)
      → IsCollisionFree
      → digest env (some s) ≡ ok fp
      → digest env (some t) ≡ ok fp'
      → s ≢ t
      → fp' ≢ fp
  digest-apart s t fp fp' free print print' apart same =
      apart (free s t (ground (arith, print, print', same)))

  -- If SHA-256 has no collisions, a key serves one request: after a call with a key has made a
  -- task, the next call of the same task type and key, at whatever time, is a conflict and changes
  -- nothing, if the time that it asks for can be read and its request has another JSON text, which
  -- fits the size limit.
  pub enqueue_conflict :
      (a b : EnqueueArgs P) (k s t fp' : String) (clock clock' id id' due due' : ℕ) (q q' : Queue P)
      (res : EnqueueResult P)
      → IsCollisionFree
      → a.idempotency_key ≡ some k
      → b.idempotency_key ≡ some k
      → b.task_type ≡ a.task_type
      → enqueue env a clock id q ≡ (ok res, q')
      → res.replayed ≡ false
      → resolve a.available_at clock ≡ ok due
      → resolve b.available_at clock' ≡ ok due'
      → env.encode_request (request_value a due) ≡ some s
      → env.encode_request (request_value b due') ≡ some t
      → s ≢ t
      → digest env (some t) ≡ ok fp'
      → enqueue env b clock' id' q' ≡ (err conflict, q')
  enqueue_conflict a b k s t fp' clock clock' id id' due due' q q' res free key key' kind e new at
        at' json json' apart print' =
      let (due_of_a, fp, first, print, entry, found) =
        filed_entry a k clock id q q' res key e new in
      let same_due : due_of_a ≡ due = ground (arith, first, at) in
      let print_a : digest env (some s) ≡ ok fp =
        ap (λ o. digest env o) (sym json)
        ∙ ap (λ n. digest env (env.encode_request (request_value a n))) (sym same_due)
        ∙ print in
      let known : previous_of b q'.idempotency ≡ some (res.task.id, fp) =
        previous-lookup b k q'.idempotency key'
        ∙ ap (λ (x : String). lookup (x, k) q'.idempotency) kind
        ∙ entry in
      enqueue-answer b clock' id' due' fp' q' at' (ap (λ o. digest env o) json' ∙ print')
      ∙ ap (λ o. answer b due' clock' id' fp' o q') known
      ∙ replay-other fp' fp res.task.id q' (digest-apart s t fp fp' free print_a print' apart)
