-- ===== src/Automation/Retry.antt =====
-- `RetryPolicy` of backend/app/automation/tasks.py. Its floats are exact fractions here: the
-- seconds are held in microseconds, the ratio and the entropy in millionths, and a delay in
-- units of 10^-12 microseconds until `timedelta` rounds it.
pub mod Bounds
use qa_platform_learning.Common.Tests.{
  ℕ, zero, suc, ◌+◌, ◌-◌, ◌*◌, ◌/◌, ◌%◌, ◌^◌, ◌≤◌, ◌<◌, min, ◌≡◌, refl, Bool, true, false, ◌||◌,
  arith, ltb, nat_beq, if◌then◌else◌,
}
use qa_platform_learning.Common.Result.{Result, ok, err}
use qa_platform_learning.Automation.Errors.{Error, validation}

pub record RetryPolicy : Type 0 where
  pub base_seconds : ℕ
  pub maximum_seconds : ℕ
  pub jitter_ratio : ℕ

abbrev pub million : ℕ
million = 1_000_000

abbrev pub default_policy : RetryPolicy
default_policy = record {
  base_seconds = 1_000_000;
  maximum_seconds = 300_000_000;
  jitter_ratio = 200_000;
}

-- `min(self.maximum_seconds, self.base_seconds * (2 ** (attempt - 1)))`
unfoldable pub base_delay : RetryPolicy → ℕ → ℕ
base_delay p attempt = min p.maximum_seconds (p.base_seconds * 2 ^ (attempt - 1))

-- `max(0.0, base + jitter)`: the jitter is negative where the entropy is below one half, and the
-- subtraction on ℕ stops at 0 as the source's `max` does.
unfoldable pub delay : RetryPolicy → ℕ → ℕ → Result Error ℕ
unfolding base_delay
delay p attempt entropy =
    if ltb attempt 1 || ltb million entropy
    then err validation
    else (let base = base_delay p attempt in
        ok (
          base * (million * million)
          + base * p.jitter_ratio * (2 * entropy)
          - base * p.jitter_ratio * million))

-- `timedelta(seconds=delay)` in microseconds: to the nearest, and a half to the even one.
unfoldable pub to_timedelta : ℕ → ℕ
to_timedelta d =
    let q = d / (million * million) in
    let r = d % (million * million) in
    if ltb (2 * r) (million * million)
    then q
    else if ltb (million * million) (2 * r)
    then q + 1
    else q + q % 2
