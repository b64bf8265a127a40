-- ===== src/Automation/Errors.antt =====
-- backend/app/automation/errors.py, with the ValidationError that a pydantic model raises and the
-- clock reading that the modules of the package share (`_as_utc` in tasks.py, devices.py and
-- scheduler.py).
use qa_platform_learning.Common.Tests.{ℕ, Option, none, some}
use qa_platform_learning.Common.Result.{Result, ok, err}
use qa_platform_learning.Common.Time.{DateTime, aware, naive}

-- `model_invalid` is pydantic's ValidationError, and `key_error` to `index_error` are Python's own;
-- the others are the package's classes.
pub data Error : Type 0 where
  not_found conflict lease_error validation model_invalid key_error type_error overflow_error
        value_error index_error :
      Error

-- `_as_utc`: a naive datetime is refused, an aware one is turned to UTC, which keeps its instant.
abbrev pub as_utc : DateTime → Result Error ℕ
as_utc (naive _) = err validation
as_utc (aware t) = ok t

-- `_as_utc(now or utc_now())`, where `clock` is what `utc_now()` reads.
abbrev pub resolve : Option DateTime → ℕ → Result Error ℕ
resolve none clock = ok clock
resolve (some d) clock = as_utc d
