-- ===== src/Common/Time.antt =====
-- Instants and durations. A timezone-aware datetime is its instant in microseconds from
-- 0001-01-01 UTC, and a naive one is a wall clock with no zone.
use qa_platform_learning.Common.Tests.{ℕ, zero, suc, ◌*◌, Bool, true, false}

pub data DateTime : Type 0 where
  aware naive : ℕ → DateTime

-- Python's signed integers: `negsuc n` is -(n + 1).
pub data ℤ : Type 0 where
  pos negsuc : ℕ → ℤ

-- `value < 1`
abbrev pub below_one : ℤ → Bool
below_one (pos zero) = true
below_one (pos (suc _)) = false
below_one (negsuc _) = true

abbrev pub to_ℕ : ℤ → ℕ
to_ℕ (pos n) = n
to_ℕ (negsuc _) = 0

-- `timedelta(seconds=n)` for a whole n, in microseconds.
abbrev pub seconds : ℕ → ℕ
seconds n = n * 1_000_000
