-- ===== src/Automation/Cron/Search.antt =====
-- The searches of `CronExpression`, backend/app/automation/cron.py, minute by minute.
use qa_platform_learning.Common.Tests.{
  ℕ, zero, suc, ◌+◌, ◌-◌, ◌*◌, ◌%◌, Bool, true, false, String, Option, none, some, ltb,
  if◌then◌else◌,
}
use qa_platform_learning.Common.Result.{Result, ok, err}
use qa_platform_learning.Common.Time.{DateTime}
use qa_platform_learning.Automation.Errors.{Error, validation, overflow_error, as_utc}
use qa_platform_learning.Automation.Cron.Expression.{
  Expression, Local, Calendar, matches_local, find_zone,
}

-- A minute, in microseconds, and the end of the year 9999.
abbrev pub minute : ℕ
minute = 60_000_000

abbrev pub end_of_time : ℕ
end_of_time = 315_537_897_600_000_000

-- `instant.replace(second=0, microsecond=0)`
abbrev pub minute_of : ℕ → ℕ
minute_of t = t - t % minute

-- `instant + timedelta(minutes=1)` and `instant - timedelta(minutes=1)`
abbrev pub later : ℕ → Result Error ℕ
later t = if ltb (t + minute) end_of_time then ok (t + minute) else err overflow_error

abbrev pub earlier : ℕ → Result Error ℕ
earlier t = if ltb t minute then err overflow_error else ok (t - minute)

-- `max_search_minutes`
abbrev pub search_minutes : ℕ
search_minutes = 5 * 366 * 24 * 60

module _ {Zone : Type 0} (calendar : Calendar Zone) (e : Expression) where
  abbrev pub local_matches : Option Local → Result Error Bool
  local_matches none = err overflow_error
  local_matches (some local) = ok (matches_local e local)

  -- `_matches_in_zone`
  unfoldable pub matches_in_zone : ℕ → Zone → Result Error Bool
  matches_in_zone t zone = local_matches (calendar.astimezone zone t)

  module _ (move : ℕ → Result Error ℕ) where
    -- The loop of either search; its fuel is the bound of the code's own `range`.
    unfoldable pub search : ℕ → ℕ → Zone → Result Error ℕ
    search zero t zone = err validation
    search (suc n) t zone = elim (matches_in_zone t zone) [
      | err x ↦ err x
      | ok true ↦ ok t
      | ok false ↦ elim (move t) [ err x ↦ err x | ok u ↦ search n u zone ]
    ]

  abbrev pub search_from : (ℕ → Result Error ℕ) → ℕ → Result Error ℕ → Zone → Result Error ℕ
  search_from move n (err x) zone = err x
  search_from move n (ok t) zone = search move n t zone

  abbrev pub next_in : ℕ → Result Error Zone → Result Error ℕ → Result Error ℕ
  next_in n (err x) _ = err x
  next_in n (ok zone) (err x) = err x
  next_in n (ok zone) (ok t) = search_from later n (later (minute_of t)) zone

  -- `next_after`
  unfoldable pub next_after : DateTime → String → (max_search_minutes : ℕ) → Result Error ℕ
  unfolding search
  next_after instant zone_name n = next_in n (find_zone calendar zone_name) (as_utc instant)

  abbrev pub previous_in : ℕ → Result Error Zone → Result Error ℕ → Result Error ℕ
  previous_in n (err x) _ = err x
  previous_in n (ok zone) (err x) = err x
  previous_in n (ok zone) (ok t) = search_from earlier n (ok (minute_of t)) zone

  -- `previous_at_or_before`
  unfoldable pub previous_at_or_before :
      DateTime → String → (max_search_minutes : ℕ) → Result Error ℕ
  unfolding search
  previous_at_or_before instant zone_name n =
      previous_in n (find_zone calendar zone_name) (as_utc instant)

  abbrev pub match_in : Result Error Zone → Result Error ℕ → Result Error Bool
  match_in (err x) _ = err x
  match_in (ok zone) (err x) = err x
  match_in (ok zone) (ok t) = matches_in_zone t zone

  -- `matches`
  unfoldable pub matches : DateTime → String → Result Error Bool
  matches instant zone_name = match_in (find_zone calendar zone_name) (as_utc instant)
