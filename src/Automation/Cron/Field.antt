-- ===== src/Automation/Cron/Field.antt =====
-- `_CronField`, backend/app/automation/cron.py. A frozen set of integers is a list that names each of
-- them once.
use qa_platform_learning.Common.Tests.{
  ℕ, zero, suc, ◌+◌, ◌-◌, Bool, true, false, ◌&&◌, ◌||◌, Option, none, some, List, [], ◌∷◌, nat_beq,
  ltb, is_some, if◌then◌else◌,
}
use qa_platform_learning.Common.Lists.{any, all, is_empty}
use qa_platform_learning.Common.Result.{Result, ok, err}
use qa_platform_learning.Common.Time.{ℤ, pos, negsuc, below_one, to_ℕ}
use qa_platform_learning.Automation.Errors.{Error, validation}
use qa_platform_learning.Automation.Cron.Text.{Unicode, Text, has_code, split_on, partition, int}

pub record Field : Type 0 where
  pub values : List ℕ
  pub wildcard : Bool

-- `value in values`
abbrev pub member : ℕ → List ℕ → Bool
member n xs = any (λ x. nat_beq x n) xs

-- `values.add(value)`
abbrev pub add : ℕ → List ℕ → List ℕ
add n xs = if member n xs then xs else n ∷ xs

-- `start < minimum`, `end > maximum` and `start > end` for integers and a bound that is no negative
-- number.
abbrev pub below : ℤ → ℕ → Bool
below (pos n) low = ltb n low
below (negsuc _) low = true

abbrev pub above : ℤ → ℕ → Bool
above (pos n) high = ltb high n
above (negsuc _) high = false

abbrev pub exceeds : ℤ → ℤ → Bool
exceeds (pos m) (pos n) = ltb n m
exceeds (pos _) (negsuc _) = true
exceeds (negsuc _) (pos _) = false
exceeds (negsuc m) (negsuc n) = ltb m n

-- One item of a field: where it starts and ends, and its step.
pub record Span : Type 0 where
  pub first : ℤ
  pub last : ℤ
  pub step : ℤ

abbrev pub or_invalid : {A : Type 0} → Option A → Result Error A
or_invalid none = err validation
or_invalid (some a) = ok a

module _ (unicode : Unicode) (minimum maximum : ℕ) where
  -- The step, 1 where the item has no separator.
  abbrev read_step : Option Text → Result Error ℤ
  read_step none = ok (pos 1)
  read_step (some t) = elim (int unicode t) [
    | none ↦ err validation
    | some n ↦ if below_one n then err validation else ok n
  ]

  abbrev pair : ℤ → Option ℤ → Option ℤ → Option Span
  pair step (some a) (some b) = some (record { first = a; last = b; step = step })
  pair step _ _ = none

  abbrev is_star : Text → Bool
  is_star (c ∷ []) = has_code 42 c
  is_star _ = false

  -- A range, or a value that ends at itself or, with a step, at the maximum.
  abbrev read_bounds : ℤ → Bool → Text → Option Span
  read_bounds step stepped base =
      let (before, after) = partition 45 base in
      elim after [
        | some t ↦ pair step (int unicode before) (int unicode t)
        | none ↦ let a = int unicode base in pair step a (if stepped then some (pos maximum) else a)
      ]

  abbrev pub read_base : Text → Bool → ℤ → Result Error Span
  read_base base stepped step =
      if is_star base
      then ok (record { first = pos minimum; last = pos maximum; step = step })
      else or_invalid (read_bounds step stepped base)

  abbrev pub read_with : Text → Bool → Result Error ℤ → Result Error Span
  read_with base stepped (err e) = err e
  read_with base stepped (ok step) = read_base base stepped step

  abbrev read_part : Text × Option Text → Result Error Span
  read_part (base, step) = read_with base (is_some step) (read_step step)

  -- An item as it is written.
  unfoldable pub read_span : Text → Result Error Span
  read_span item = if is_empty item then err validation else read_part (partition 47 item)

  module _ (sunday_alias : Bool) where
    abbrev pub outside : Span → Bool
    outside s =
        below s.first minimum
        || above s.last (if sunday_alias then 7 else maximum)
        || exceeds s.first s.last

    -- `0 if sunday_alias and item == 7 else item`
    abbrev pub fold : ℕ → ℕ
    fold n = if sunday_alias && nat_beq n 7 then 0 else n

    -- `range(start, end + 1, step)` into the set; `fuel` is the number of values from start to end,
    -- and the range has no more.
    unfoldable pub add_range : (fuel start end step : ℕ) → List ℕ → List ℕ
    add_range zero start end step xs = xs
    add_range (suc fuel) start end step xs =
        let rest = add_range fuel (start + step) end step (add (fold start) xs) in
        if ltb end start then xs else rest

    abbrev pub add_span : Span → List ℕ → List ℕ
    add_span s xs =
        add_range (suc (to_ℕ s.last) - to_ℕ s.first) (to_ℕ s.first) (to_ℕ s.last) (to_ℕ s.step) xs

    abbrev pub add_read : Result Error Span → List ℕ → Result Error (List ℕ)
    add_read (err e) xs = err e
    add_read (ok s) xs = if outside s then err validation else ok (add_span s xs)

    -- The loop over the items.
    unfoldable pub add_items : List Text → List ℕ → Result Error (List ℕ)
    unfolding add_range read_span
    add_items [] xs = ok xs
    add_items (t ∷ ts) xs = elim (add_read (read_span t) xs) [
      | err e ↦ err e
      | ok ys ↦ add_items ts ys
    ]

    -- `set(range(low, low + n))`
    abbrev count_from : (n low : ℕ) → List ℕ
    count_from zero low = []
    count_from (suc n) low = low ∷ count_from n (suc low)

    abbrev same_set : List ℕ → List ℕ → Bool
    same_set xs ys = all (λ y. member y xs) ys && all (λ x. member x ys) xs

    abbrev pub close : Result Error (List ℕ) → Result Error Field
    close (err e) = err e
    close (ok xs) = ok (record {
      values = xs;
      wildcard = same_set xs (count_from (suc maximum - minimum) minimum);
    })

    -- `_CronField.parse`
    unfoldable pub parse_field : Text → Result Error Field
    unfolding add_items
    parse_field expression = close (add_items (split_on 44 expression) [])
