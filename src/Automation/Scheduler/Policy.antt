-- ===== src/Automation/Scheduler/Policy.antt =====
-- `_apply_misfire_policy` and the collection of due times, backend/app/automation/scheduler.py.
use qa_platform_learning.Common.Tests.{
  ℕ, zero, suc, ◌-◌, true, false, String, List, [], ◌∷◌, ltb, leb, nat_beq, if◌then◌else◌,
}
use qa_platform_learning.Common.Lists.{length, select, take, drop}
use qa_platform_learning.Common.Result.{Result, ok, err}
use qa_platform_learning.Common.Time.{aware, seconds}
use qa_platform_learning.Automation.Errors.{Error, validation, overflow_error}
use qa_platform_learning.Automation.Cron.Expression.{Expression, Calendar}
use qa_platform_learning.Automation.Cron.Search.{next_after, search_minutes}
use qa_platform_learning.Automation.Scheduler.Model.{
  MisfirePolicy, skip, fire_once, catch_up_limited, Schedule,
}

-- `due[-n:]` and `due[:-n]`
abbrev pub last_of : {A : Type 0} → ℕ → List A → List A
last_of n xs = if nat_beq n 0 then xs else drop (length xs - n) xs

abbrev pub all_but : {A : Type 0} → ℕ → List A → List A
all_but n xs = if nat_beq n 0 then [] else take (length xs - n) xs

abbrev pub since : ℕ → List ℕ → List ℕ × List ℕ
since cutoff due = (select (λ t. leb cutoff t) due, select (λ t. ltb t cutoff) due)

-- The times of a list that is not empty, by the policy: those that run, and those that are skipped.
unfoldable pub by_policy :
    MisfirePolicy → (grace limit : ℕ) → List ℕ → ℕ → Result Error (List ℕ × List ℕ)
by_policy fire_once grace limit due now = ok (last_of 1 due, all_but 1 due)
by_policy catch_up_limited grace limit due now = ok (last_of limit due, all_but limit due)
by_policy skip grace limit due now =
    if ltb now (seconds grace) then err overflow_error else ok (since (now - seconds grace) due)

-- `_apply_misfire_policy`
unfoldable pub apply_misfire_policy :
    {P : Type 0} → Schedule P → List ℕ → ℕ → Result Error (List ℕ × List ℕ)
unfolding by_policy
apply_misfire_policy s [] now = ok ([], [])
apply_misfire_policy s (t ∷ ts) now =
    by_policy s.misfire_policy s.misfire_grace_seconds s.catch_up_limit (t ∷ ts) now

module _ {Zone : Type 0} (calendar : Calendar Zone) (e : Expression) (timezone : String)
    (now : ℕ) where
  abbrev pub then_due : ℕ → Result Error (List ℕ × ℕ) → Result Error (List ℕ × ℕ)
  then_due t (err x) = err x
  then_due t (ok (due, cursor)) = ok (t ∷ due, cursor)

  -- The loop that collects the due times from `cursor` on, with room for `room` more, and the first
  -- time that is not due. A time that finds no room raises.
  unfoldable pub collect_due : (room cursor : ℕ) → Result Error (List ℕ × ℕ)
  collect_due zero cursor = if leb cursor now then err validation else ok ([], cursor)
  collect_due (suc room) cursor = elim (leb cursor now) [
    | false ↦ ok ([], cursor)
    | true ↦ elim (next_after calendar e (aware cursor) timezone search_minutes) [
      | err x ↦ err x
      | ok t ↦ then_due cursor (collect_due room t)
    ]
  ]
