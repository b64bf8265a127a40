-- ===== src/Automation/Tasks/Recovery.antt =====
-- Expired leases, `_recover_expired_locked` of backend/app/automation/tasks.py.
use qa_platform_learning.Common.Tests.{
  ℕ, ◌+◌, Bool, true, false, ◌&&◌, Option, some, List, [], ◌∷◌, ltb, if◌then◌else◌, nat_keyed,
  text_keyed, pair_keyed,
}
use qa_platform_learning.Common.Dict.{Dict}
use qa_platform_learning.Common.Result.{Result, ok, err, Action, lift, ◌>>=◌}
use qa_platform_learning.Common.Time.{DateTime}
use qa_platform_learning.Automation.Errors.{Error, resolve}
use qa_platform_learning.Automation.Retry.{delay, to_timedelta}
use qa_platform_learning.Automation.Tasks.Model.{retry_wait, cancelled, dead_letter, Task}
use qa_platform_learning.Automation.Tasks.State.{Env, Queue, is_running, lapsed, clear_lease}

module _ {P : Type 0} where
  abbrev pub is_expired : ℕ → Task P → Bool
  is_expired now t = is_running t.status && lapsed t.lease_expires_at now

  abbrev pub add_changed : Task P → Result Error (List (Task P)) → Result Error (List (Task P))
  add_changed t (ok ts) = ok (t ∷ ts)
  add_changed t (err e) = err e

module _ {P : Type 0} (env : Env P) where
  -- The two lines of `fail` and of `_recover_expired_locked` that put a task on its retry wait: the
  -- status is written before the policy can raise, the wake-up time after.
  unfoldable pub wait_retry : ℕ → Task P → ℕ → Result Error (Unit {0}) × Task P
  unfolding delay
  wait_retry now t draw = elim (delay env.policy t.attempts (env.entropy draw)) [
    | err e ↦ (err e, record t { status = retry_wait })
    | ok d ↦
        (ok tt, clear_lease (record t { status = retry_wait; available_at = now + to_timedelta d }))
  ]

  -- The body of the loop of `_recover_expired_locked`, for a task that passes its test.
  unfoldable pub expire : ℕ → Task P → ℕ → Result Error (Unit {0}) × Task P × ℕ
  unfolding wait_retry
  expire now t draw =
      let u = record t { error_code = some "lease_expired" } in
      if t.cancel_requested
      then (ok tt, clear_lease (record u { status = cancelled; finished_at = some now }), draw)
      else if ltb t.attempts t.max_attempts
      then (let (r, w) = wait_retry now u draw in (r, w, draw + 1))
      else (ok tt, clear_lease (record u { status = dead_letter; finished_at = some now }), draw)

  -- The loop of `_recover_expired_locked`: a raise ends it, and leaves the later tasks alone.
  unfoldable pub recover_loop :
      ℕ → Dict ℕ (Task P) → ℕ → Result Error (List (Task P)) × Dict ℕ (Task P) × ℕ
  unfolding expire
  recover_loop now [] draw = (ok [], [], draw)
  recover_loop now ((k, t) ∷ d) draw = elim (is_expired now t) [
    | false ↦ let (r, d', n) = recover_loop now d draw in (r, (k, t) ∷ d', n)
    | true ↦
        let (r, u, n) = expire now t draw in
        elim r [
          | err e ↦ (err e, (k, u) ∷ d, n)
          | ok _ ↦ let (r', d', n') = recover_loop now d n in (add_changed u r', (k, u) ∷ d', n')
        ]
  ]

  -- `_recover_expired_locked`
  unfoldable pub recover_expired_locked : ℕ → Action (Queue P) Error (List (Task P))
  unfolding recover_loop
  recover_expired_locked now q =
      let (r, d, n) = recover_loop now q.tasks q.draws in (r, record q { tasks = d; draws = n })

  unfoldable pub recover_expired : Option DateTime → ℕ → Action (Queue P) Error (List (Task P))
  unfolding recover_expired_locked
  recover_expired now clock = do current ← lift (resolve now clock); recover_expired_locked current

  -- The queue after the recovery of expired leases, as `claim` goes on with it.
  abbrev pub swept : ℕ → Queue P → Queue P
  swept now q = (recover_expired_locked now q).1
