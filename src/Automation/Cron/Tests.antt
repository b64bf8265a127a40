-- ===== src/Automation/Cron/Tests.antt =====
-- Tests of cron expressions, and their theorems at concrete inputs.
use qa_platform_learning.Common.Tests.{
  ℕ, ◌+◌, ◌-◌, ◌/◌, ◌%◌, ◌<◌, ◌≤◌, ◌≡◌, refl, true, false, Option, none, some, List, [], ◌∷◌,
  nat_beq, leb, ◌&&◌, nat_keyed, if◌then◌else◌, arith,
}
use Prim.Native.Char.{Char, code}
use qa_platform_learning.Common.Result.{ok, err}
use qa_platform_learning.Common.Time.{aware}
use qa_platform_learning.Automation.Errors.{validation, as_utc}
use qa_platform_learning.Automation.Cron.Text.{
  Unicode, chars, split_on, partition, split_spaces, int, digits_from,
}
use qa_platform_learning.Automation.Cron.Field.{Field, parse_field}
use qa_platform_learning.Automation.Cron.Expression.{
  Expression, Local, Calendar, parse, validate_feasibility, day_matches, matches_local, find_zone,
}
use qa_platform_learning.Automation.Cron.Search.{
  minute, minute_of, matches_in_zone, next_after, previous_at_or_before,
}
use qa_platform_learning.Automation.Cron.Firing.{
  FirstFrom, LastUpTo, next_after-FirstFrom, previous-LastUpTo,
}
use qa_platform_learning.Automation.Cron.Feasibility.{rejected_never_matches}
use qa_platform_learning.Automation.Cron.Bounds.{InRange, parse-InRange}

abbrev ascii_digit : Char → Option ℕ
ascii_digit c = if leb 48 (code c) && leb (code c) 57 then some (code c - 48) else none

abbrev ascii : Unicode
ascii = record { is_space = λ c. nat_beq (code c) 32; digit = ascii_digit }

-- A zone whose months all have 28 days.
abbrev plain : Calendar Unit
plain = record {
  zone_info = λ _. ok tt;
  astimezone = λ _ t. some (record {
    minute = t / 60_000_000 % 60;
    hour = t / 3_600_000_000 % 24;
    day = 1 + t / 86_400_000_000 % 28;
    month = 1;
    weekday = t / 86_400_000_000 % 7;
  });
}

abbrev only : List ℕ → Field
only xs = record { values = xs; wildcard = false }

abbrev any_day : Field
any_day = record { values = 0 ∷ 1 ∷ 2 ∷ 3 ∷ 4 ∷ 5 ∷ 6 ∷ []; wildcard = true }

abbrev early : Expression
early = record {
  minute = only (0 ∷ 5 ∷ []);
  hour = only (0 ∷ []);
  day_of_month = only (1 ∷ 2 ∷ []);
  month = only (1 ∷ []);
  day_of_week = any_day;
}

early_next : next_after plain early (aware 61_000_000) "UTC" 10 ≡ ok 300_000_000
unfolding next_after find_zone matches_in_zone matches_local day_matches
early_next = refl

early_previous : previous_at_or_before plain early (aware 361_000_000) "UTC" 10 ≡ ok 300_000_000
unfolding previous_at_or_before find_zone matches_in_zone matches_local day_matches
early_previous = refl

next_after-FirstFrom_example :
    (now : ℕ) × (zone : Unit) × (as_utc (aware 61_000_000) ≡ ok now)
    × (find_zone plain "UTC" ≡ ok zone)
    × (now < 300_000_000)
    × FirstFrom plain early zone 10 (minute_of now + minute) 300_000_000
next_after-FirstFrom_example =
    next_after-FirstFrom plain early (aware 61_000_000) "UTC" 10 300_000_000 early_next

previous-LastUpTo_example :
    (now : ℕ) × (zone : Unit) × (as_utc (aware 361_000_000) ≡ ok now)
    × (find_zone plain "UTC" ≡ ok zone)
    × (300_000_000 ≤ now)
    × LastUpTo plain early zone 10 (minute_of now) 300_000_000
previous-LastUpTo_example =
    previous-LastUpTo plain early (aware 361_000_000) "UTC" 10 300_000_000 early_previous

-- The thirty-first of February.
abbrev never : Expression
never = record early { day_of_month = only (31 ∷ []); month = only (2 ∷ []) }

abbrev leap_day : Local
leap_day = record { minute = 0; hour = 0; day = 29; month = 2; weekday = 3 }

never_rejected : validate_feasibility never ≡ err validation
unfolding validate_feasibility
never_rejected = refl

rejected_never_matches_example : matches_local never leap_day ≡ false
rejected_never_matches_example =
    rejected_never_matches never leap_day 29 never_rejected refl (omega arith)

abbrev yearly : Expression
yearly = record {
  minute = only (1 ∷ []);
  hour = only (2 ∷ []);
  day_of_month = only (3 ∷ []);
  month = only (4 ∷ []);
  day_of_week = only (0 ∷ 5 ∷ []);
}

yearly_parses : parse ascii "1 2 3 4 5-7/2" ≡ ok yearly
unfolding parse parse_field chars split_spaces split_on partition int digits_from
    validate_feasibility
yearly_parses = refl

parse-InRange_example : InRange yearly × (validate_feasibility yearly ≡ ok tt)
parse-InRange_example = parse-InRange ascii "1 2 3 4 5-7/2" yearly yearly_parses
