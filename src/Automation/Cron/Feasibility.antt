-- ===== src/Automation/Cron/Feasibility.antt =====
-- What the feasibility check of a cron expression rejects (backend/app/automation/cron.py).
use qa_platform_learning.Common.Tests.{
  ℕ, ◌≡◌, ◌≤◌, refl, sym, ap, ◌∙◌, inl, inr, Bool, true, false, none, some, List, [], ◌∷◌, arith,
  nat_keyed, nat_beq, nat_beq_iff, leb, if◌then◌else◌, Bool-cases, Option-cases,
}
use qa_platform_learning.Common.Lists.{any, is_empty}
use mathlib.Core.Option.{some-injective}
use qa_platform_learning.Common.Dict.{lookup}
use qa_platform_learning.Common.Result.{Result, ok, err}
use qa_platform_learning.Automation.Errors.{Error, validation, key_error}
use qa_platform_learning.Automation.Cron.Field.{member}
use qa_platform_learning.Automation.Cron.Expression.{
  Expression, Local, maximum_day_by_month, some_date, reject_false, validate_feasibility,
  day_matches, matches_local,
}

any-member :
    (last d : ℕ) (days : List ℕ)
    → any (λ x. leb x last) days ≡ false
    → member d days ≡ true
    → leb d last ≡ false
any-member last d [] h m = absurd (cc (m))
any-member last d (x ∷ xs) h m = elim (Bool-cases (nat_beq x d)) [
  | inl same ↦ ground (arith, nat_beq_iff x d)
  | inr other ↦ any-member last d xs (ground arith) (rw other at m)
]

not_empty : (d : ℕ) (days : List ℕ) → member d days ≡ true → is_empty days ≡ false
not_empty d [] m = absurd (cc (m))
not_empty d (x ∷ xs) m = refl

module _ (x : ℕ) (xs days : List ℕ) (full : is_empty days ≡ false) where
  some_date-missing : lookup x maximum_day_by_month ≡ none → some_date (x ∷ xs) days ≡ err key_error
  unfolding some_date
  some_date-missing missing = rw full (rw missing refl)

  some_date-found :
      (last : ℕ) (b : Bool)
      → lookup x maximum_day_by_month ≡ some last
      → any (λ d. leb d last) days ≡ b
      → some_date (x ∷ xs) days ≡ (if b then ok true else some_date xs days)
  unfolding some_date
  some_date-found last b found fits = rw full (rw found (rw fits refl))

  -- One month of a check that found no date.
  some_date-step :
      some_date (x ∷ xs) days ≡ ok false
      → (last : ℕ) × (lookup x maximum_day_by_month ≡ some last)
        × (any (λ d. leb d last) days ≡ false)
        × (some_date xs days ≡ ok false)
  some_date-step h = elim (Option-cases (lookup x maximum_day_by_month)) [
    | inl missing ↦ absurd (cc (sym (some_date-missing missing) ∙ h))
    | inr (last, found) ↦ elim (Bool-cases (any (λ d. leb d last) days)) [
      | inl fits ↦ absurd (cc (sym (some_date-found last true found fits) ∙ h))
      | inr lacks ↦ (last, found, lacks, sym (some_date-found last false found lacks) ∙ h)
    ]
  ]

-- The check raises nothing but a key error.
some_date-errs : (months days : List ℕ) (x : Error) → some_date months days ≡ err x → x ≡ key_error
unfolding some_date
some_date-errs [] days x h = absurd (cc (h))
some_date-errs (m ∷ ms) days x h = elim (Bool-cases (is_empty days)) [
  | inl none_left ↦ some_date-errs ms days x (rw none_left at h)
  | inr full ↦ elim (Option-cases (lookup m maximum_day_by_month)) [
    | inl missing ↦ cc (sym (some_date-missing m ms days full missing) ∙ h)
    | inr (last, found) ↦ elim (Bool-cases (any (λ d. leb d last) days)) [
      | inl fits ↦ absurd (cc (sym (some_date-found m ms days full last true found fits) ∙ h))
      | inr lacks ↦
          some_date-errs ms days x (sym (some_date-found m ms days full last false found lacks) ∙ h)
    ]
  ]
]

some_date-lacks :
    (months days : List ℕ) (m d last : ℕ)
    → some_date months days ≡ ok false
    → member m months ≡ true
    → lookup m maximum_day_by_month ≡ some last
    → member d days ≡ true
    → leb d last ≡ false
some_date-lacks [] days m d last h in_months at in_days = absurd (cc (in_months))
some_date-lacks (x ∷ xs) days m d last h in_months at in_days =
    let (most, found, lacks, more) = some_date-step x xs days (not_empty d days in_days) h in
    elim (Bool-cases (nat_beq x m)) [
      | inl same ↦
          let e : most ≡ last = some-injective _ _ (
            sym found
            ∙ ap (λ (i : ℕ). lookup i maximum_day_by_month) ((nat_beq_iff x m).0 same)
            ∙ at) in
          any-member last d days (ap (λ (n : ℕ). any (λ y. leb y n) days) (sym e) ∙ lacks) in_days
      | inr other ↦ some_date-lacks xs days m d last more (rw other at in_months) at in_days
    ]

rejected_check :
    (e : Expression)
    → validate_feasibility e ≡ err validation
    → (e.day_of_month.wildcard ≡ false)
      × (e.day_of_week.wildcard ≡ true)
      × (some_date e.month.values e.day_of_month.values ≡ ok false)
unfolding validate_feasibility
rejected_check e h = elim (Bool-cases e.day_of_month.wildcard) [
  | inl wild ↦ absurd (cc (rw wild at h))
  | inr picks ↦ elim (Bool-cases e.day_of_week.wildcard) [
    | inr picks_week ↦ absurd (cc (rw (picks, picks_week) at h))
    | inl any_week ↦ (
      picks,
      any_week,
      outcome (some_date e.month.values e.day_of_month.values) refl (rw (picks, any_week) at h),
    )
  ]
]
  where
    outcome :
        (r : Result Error Bool)
        → some_date e.month.values e.day_of_month.values ≡ r
        → reject_false r ≡ err validation
        → r ≡ ok false
    outcome (ok true) from h = absurd (cc (h))
    outcome (ok false) from h = refl
    outcome (err x) from h =
        let known : x ≡ key_error = some_date-errs e.month.values e.day_of_month.values x from in
        absurd (cc (ap (λ y. reject_false (err y)) (sym known) ∙ h))

-- An expression that the feasibility check rejects matches no date of the calendar: no wall clock,
-- in any month, on a day that the month can have.
pub rejected_never_matches :
    (e : Expression) (local : Local) (last : ℕ)
    → validate_feasibility e ≡ err validation
    → lookup local.month maximum_day_by_month ≡ some last
    → local.day ≤ last
    → matches_local e local ≡ false
unfolding matches_local day_matches
rejected_never_matches e local last h at low =
    let (picks, any_week, none_fits) = rejected_check e h in
    elim (Bool-cases (member local.month e.month.values)) [
      | inr out ↦ rw out (ground arith)
      | inl among ↦ elim (Bool-cases (member local.day e.day_of_month.values)) [
        | inr out ↦ rw (picks, any_week) (rw out (ground arith))
        | inl on ↦ absurd (
            ground (
              arith,
              some_date-lacks e.month.values e.day_of_month.values local.month local.day last
                  none_fits among at on,
            ))
      ]
    ]
