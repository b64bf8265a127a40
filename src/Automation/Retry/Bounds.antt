-- ===== src/Automation/Retry/Bounds.antt =====
-- Bounds of the retry delay (`RetryPolicy.delay` of backend/app/automation/tasks.py).
use qa_platform_learning.Common.Tests.{ℕ, suc, ◌+◌, ◌-◌, ◌*◌, ◌^◌, ◌≤◌, min, ◌≡◌, sym, ap, arith}
use native.Mathlib.Nat.{pow-suc}
use qa_platform_learning.Common.Result.{ok}
use qa_platform_learning.Automation.Retry.{RetryPolicy, million, base_delay, delay, to_timedelta}

pub base_delay-le : (p : RetryPolicy) (attempt : ℕ) → base_delay p attempt ≤ p.maximum_seconds
unfolding base_delay
base_delay-le p attempt = omega arith

base_delay_doubles :
    (p : RetryPolicy) (attempt : ℕ) → base_delay p (suc attempt) ≤ base_delay p (suc (suc attempt))
unfolding base_delay
base_delay_doubles p attempt = grows p.maximum_seconds p.base_seconds attempt (pow-suc 2 attempt)
  where
    grows :
        (m b n : ℕ)
        → 2 ^ suc n ≡ 2 ^ n * 2
        → min m (b * 2 ^ (suc n - 1)) ≤ min m (b * 2 ^ (suc (suc n) - 1))
    grows m b n e =
        let f : suc (suc n) - 1 ≡ suc n = omega arith in
        let g : suc n - 1 ≡ n = omega arith in rw (f, g, e) (omega arith)

-- The arithmetic, with s the complement of the ratio r.
scaled :
    (b r s x : ℕ)
    → r + s ≡ million
    → x ≤ million
    → (b * s * million ≤ b * (million * million) + b * r * (2 * x) - b * r * million)
      × (b * (million * million) + b * r * (2 * x) - b * r * million ≤ b * (million + r) * million)
scaled b r s x e h =
    let whole : b * r + b * s ≡ b * million = omega (arith, ap (λ (t : ℕ). b * t) e) in
    let part : b * r * x ≤ b * r * million = grind arith in (omega arith, omega arith)

accepted :
    (p : RetryPolicy) (attempt entropy d : ℕ)
    → delay p attempt entropy ≡ ok d
    → (entropy ≤ million)
      × (base_delay p attempt * (million * million)
            + base_delay p attempt * p.jitter_ratio * (2 * entropy)
            - base_delay p attempt * p.jitter_ratio * million
          ≡ d)
unfolding delay
accepted p attempt entropy d e = ground arith

-- With a jitter ratio r of at most one, the delay lies between (1 - r) and (1 + r) times the capped
-- exponential base, in units of 10^-12 microseconds.
pub delay_bounds :
    (p : RetryPolicy) (attempt entropy d : ℕ)
    → p.jitter_ratio ≤ million
    → delay p attempt entropy ≡ ok d
    → (base_delay p attempt * (million - p.jitter_ratio) * million ≤ d)
      × (d ≤ base_delay p attempt * (million + p.jitter_ratio) * million)
unfolding delay
delay_bounds p attempt entropy d r e =
    let (within, value) = accepted p attempt entropy d e in
    rw (sym value) (
      scaled (base_delay p attempt) p.jitter_ratio (million - p.jitter_ratio) entropy (omega arith)
        within)

-- The delay that a task waits, in microseconds: rounding moves it by half a microsecond at most.
pub to_timedelta_bounds :
    (d : ℕ)
    → (2 * d ≤ 2 * (to_timedelta d * (million * million)) + million * million)
      × (2 * (to_timedelta d * (million * million)) ≤ 2 * d + million * million)
unfolding to_timedelta
to_timedelta_bounds d = ground arith
