-- ===== src/Automation/Cron/Expression.antt =====
-- `CronExpression`, backend/app/automation/cron.py. The calendar, the timezones and what the clocks of
-- a zone show at an instant are Python's, a parameter.
use qa_platform_learning.Common.Tests.{
  ℕ, ◌+◌, ◌%◌, Bool, true, false, not, ◌&&◌, ◌||◌, String, Option, none, some, List, [], ◌∷◌,
  nat_keyed, leb, if◌then◌else◌,
}
use qa_platform_learning.Common.Lists.{any, is_empty}
use qa_platform_learning.Common.Dict.{Dict, lookup}
use qa_platform_learning.Common.Result.{Result, ok, err}
use qa_platform_learning.Automation.Errors.{Error, validation, key_error, value_error}
use qa_platform_learning.Automation.Cron.Text.{Unicode, Text, chars, words}
use qa_platform_learning.Automation.Cron.Field.{Field, member, parse_field}

-- `_MAXIMUM_DAY_BY_MONTH`
abbrev pub maximum_day_by_month : Dict ℕ ℕ
maximum_day_by_month =
    (1, 31)
    ∷ (2, 29)
    ∷ (3, 31)
    ∷ (4, 30)
    ∷ (5, 31)
    ∷ (6, 30)
    ∷ (7, 31)
    ∷ (8, 31)
    ∷ (9, 30)
    ∷ (10, 31)
    ∷ (11, 30)
    ∷ (12, 31)
    ∷ []

pub record Expression : Type 0 where
  pub minute : Field
  pub hour : Field
  pub day_of_month : Field
  pub month : Field
  pub day_of_week : Field

-- The wall clock of a zone; Monday is 0.
pub record Local : Type 0 where
  pub minute : ℕ
  pub hour : ℕ
  pub day : ℕ
  pub month : ℕ
  pub weekday : ℕ

-- `ZoneInfoNotFoundError`, and the ValueError on a malformed key.
pub data ZoneError : Type 0 where
  unknown_zone malformed_key : ZoneError

-- `ZoneInfo(name)`, and `instant.astimezone(zone)`, none where it leaves the years 1 to 9999.
pub record Calendar (Zone : Type 0) : Type 0 where
  pub zone_info : String → Result ZoneError Zone
  pub astimezone : Zone → ℕ → Option Local

-- `any(day <= _MAXIMUM_DAY_BY_MONTH[month] for month in months for day in days)`
unfoldable pub some_date : List ℕ → List ℕ → Result Error Bool
some_date [] days = ok false
some_date (m ∷ ms) days =
    let rest = some_date ms days in
    if is_empty days then rest else elim (lookup m maximum_day_by_month) [
      | none ↦ err key_error
      | some last ↦ if any (λ d. leb d last) days then ok true else rest
    ]

abbrev pub reject_false : Result Error Bool → Result Error Unit
reject_false (err e) = err e
reject_false (ok true) = ok tt
reject_false (ok false) = err validation

-- `_validate_calendar_feasibility`
unfoldable pub validate_feasibility : Expression → Result Error Unit
unfolding some_date
validate_feasibility e =
    if e.day_of_month.wildcard || not e.day_of_week.wildcard
    then ok tt
    else reject_false (some_date e.month.values e.day_of_month.values)

module _ (unicode : Unicode) where
  abbrev pub make :
      Result Error Field
      → Result Error Field
      → Result Error Field
      → Result Error Field
      → Result Error Field
      → Result Error Expression
  make (ok a) (ok b) (ok c) (ok d) (ok e) =
      ok (record { minute = a; hour = b; day_of_month = c; month = d; day_of_week = e })
  make (err x) _ _ _ _ = err x
  make (ok _) (err x) _ _ _ = err x
  make (ok _) (ok _) (err x) _ _ = err x
  make (ok _) (ok _) (ok _) (err x) _ = err x
  make (ok _) (ok _) (ok _) (ok _) (err x) = err x

  unfoldable pub parse_fields : List Text → Result Error Expression
  parse_fields (a ∷ b ∷ c ∷ d ∷ e ∷ []) =
      make (parse_field unicode 0 59 false a) (parse_field unicode 0 23 false b)
        (parse_field unicode 1 31 false c) (parse_field unicode 1 12 false d)
        (parse_field unicode 0 6 true e)
  parse_fields _ = err validation

  abbrev pub checked : Result Error Unit → Expression → Result Error Expression
  checked (err x) e = err x
  checked (ok _) e = ok e

  abbrev pub validated : Result Error Expression → Result Error Expression
  validated (err x) = err x
  validated (ok e) = checked (validate_feasibility e) e

  -- `CronExpression.parse`
  unfoldable pub parse : String → Result Error Expression
  unfolding parse_fields
  parse expression = validated (parse_fields (words unicode (chars expression)))

-- The days, by either field where both are restricted.
unfoldable pub day_matches : Expression → Local → Bool
day_matches e local =
    let by_week = member ((local.weekday + 1) % 7) e.day_of_week.values in
    let by_month = member local.day e.day_of_month.values in
    if e.day_of_month.wildcard
    then by_week
    else if e.day_of_week.wildcard
    then by_month
    else by_month || by_week

unfoldable pub matches_local : Expression → Local → Bool
matches_local e local =
    member local.minute e.minute.values
    && member local.hour e.hour.values
    && member local.month e.month.values
    && day_matches e local

-- `_zone`
abbrev pub zone_result : {Zone : Type 0} → Result ZoneError Zone → Result Error Zone
zone_result (ok z) = ok z
zone_result (err unknown_zone) = err validation
zone_result (err malformed_key) = err value_error

unfoldable pub find_zone : {Zone : Type 0} → Calendar Zone → String → Result Error Zone
find_zone calendar name = zone_result (calendar.zone_info name)
