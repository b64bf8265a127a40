-- ===== src/Automation/Cron/Bounds.antt =====
-- The values of a parsed cron expression (backend/app/automation/cron.py).
use qa_platform_learning.Common.Tests.{
  ℕ, zero, suc, ◌+◌, ◌-◌, ◌≤◌, ◌≡◌, refl, sym, ◌∙◌, ◌⊎◌, inl, inr, Bool, true, false, ◌||◌, String,
  List, [], ◌∷◌, arith, ltb, if◌then◌else◌, Bool-cases,
}
use qa_platform_learning.Common.Lists.{all, All}
use qa_platform_learning.Common.Result.{Result, ok, err, Result-cases}
use qa_platform_learning.Common.Time.{ℤ, pos, negsuc, to_ℕ}
use qa_platform_learning.Automation.Errors.{Error}
use qa_platform_learning.Automation.Cron.Text.{Unicode, Text, chars, words, split_on}
use qa_platform_learning.Automation.Cron.Field.{
  Field, Span, member, add, below, above, exceeds, outside, fold, add_range, add_span, add_read,
  add_items, read_span, close, parse_field,
}
use qa_platform_learning.Automation.Cron.Expression.{
  Expression, parse, parse_fields, make, validated, checked, validate_feasibility,
}
use qa_platform_learning.Automation.Cron.Firing.{ok-injective}
use mathlib.Core.Path.{subst}

abbrev pub Between : ℕ → ℕ → ℕ → Type 0
Between low high n = (low ≤ n) × (n ≤ high)

add-All :
    (low high n : ℕ) (xs : List ℕ)
    → Between low high n
    → All (Between low high) xs
    → All (Between low high) (add n xs)
add-All low high n xs b h = elim (Bool-cases (member n xs)) [
  | inl there ↦ rw there h
  | inr fresh ↦ rw fresh (b, h)
]

-- Sunday is 7 too where the field is that of the weekdays, from 0 to 6.
abbrev Sound : Bool → ℕ → ℕ → Type 0
Sound sunday low high = (sunday ≡ false) ⊎ ((low ≡ 0) × (high ≡ 6))

module _ (unicode : Unicode) (low high : ℕ) (sunday : Bool) (sound : Sound sunday low high) where
  abbrev end_limit : ℕ
  end_limit = if sunday then 7 else high

  fold-Between :
      (n : ℕ) → low ≤ n → n ≤ end_limit → Between low high (fold unicode low high sunday n)
  fold-Between n above_low under = elim sound [
    | inl plain ↦ rw plain (above_low, ground (arith, plain))
    | inr (zero_low, six) ↦ ground arith
  ]

  add_range-All :
      (fuel start end step : ℕ) (xs : List ℕ)
      → low ≤ start
      → end ≤ end_limit
      → All (Between low high) xs
      → All (Between low high) (add_range unicode low high sunday fuel start end step xs)
  unfolding add_range
  add_range-All zero start end step xs from upto h = h
  add_range-All (suc fuel) start end step xs from upto h = elim (Bool-cases (ltb end start)) [
    | inl past ↦ rw past h
    | inr ahead ↦ rw ahead (
        add_range-All fuel (start + step) end step (add (fold unicode low high sunday start) xs)
          (omega (arith, from)) upto
          (add-All low high _ xs (fold-Between start from (ground (arith, upto))) h))
  ]

  span_inside :
      (s : Span)
      → outside unicode low high sunday s ≡ false
      → (low ≤ to_ℕ s.first) × (to_ℕ s.last ≤ end_limit)
  span_inside s h = inside s.first s.last h
    where
      inside :
          (a b : ℤ)
          → (below a low || above b end_limit || exceeds a b) ≡ false
          → (low ≤ to_ℕ a) × (to_ℕ b ≤ end_limit)
      inside (pos a) (pos b) h = ground arith
      inside (pos a) (negsuc b) h = ground arith
      inside (negsuc a) b h = absurd (cc (h))

  add_span-All :
      (s : Span) (xs : List ℕ)
      → outside unicode low high sunday s ≡ false
      → All (Between low high) xs
      → All (Between low high) (add_span unicode low high sunday s xs)
  add_span-All s xs h all =
      let (from, upto) = span_inside s h in
      add_range-All (suc (to_ℕ s.last) - to_ℕ s.first) (to_ℕ s.first) (to_ℕ s.last) (to_ℕ s.step) xs
        from upto all

  add_read-All :
      (r : Result Error Span) (xs ys : List ℕ)
      → All (Between low high) xs
      → add_read unicode low high sunday r xs ≡ ok ys
      → All (Between low high) ys
  add_read-All (err x) xs ys all h = absurd (cc (h))
  add_read-All (ok s) xs ys all h = elim (Bool-cases (outside unicode low high sunday s)) [
    | inl out ↦ absurd (cc (rw out at h))
    | inr fits ↦
        subst (All (Between low high)) (ok-injective (rw fits at h)) (add_span-All s xs fits all)
  ]

  add_items-step :
      (t : Text) (ts : List Text) (xs ys : List ℕ)
      → add_read unicode low high sunday (read_span unicode low high t) xs ≡ ok ys
      → add_items unicode low high sunday (t ∷ ts) xs ≡ add_items unicode low high sunday ts ys
  unfolding add_items
  add_items-step t ts xs ys h = rw (h, add_items) refl

  add_items-fails :
      (t : Text) (ts : List Text) (xs : List ℕ) (x : Error)
      → add_read unicode low high sunday (read_span unicode low high t) xs ≡ err x
      → add_items unicode low high sunday (t ∷ ts) xs ≡ err x
  unfolding add_items
  add_items-fails t ts xs x h = rw (h, add_items) refl

  add_items-All :
      (ts : List Text) (xs ys : List ℕ)
      → All (Between low high) xs
      → add_items unicode low high sunday ts xs ≡ ok ys
      → All (Between low high) ys
  unfolding add_items
  add_items-All [] xs ys all h = subst (All (Between low high)) (ok-injective h) all
  add_items-All (t ∷ ts) xs ys all h =
      elim (Result-cases (add_read unicode low high sunday (read_span unicode low high t) xs)) [
        | inl (zs, e) ↦
            add_items-All ts zs ys (add_read-All (read_span unicode low high t) xs zs all e)
              (sym (add_items-step t ts xs zs e) ∙ h)
        | inr (x, e) ↦ absurd (cc (sym (add_items-fails t ts xs x e) ∙ h))
      ]

  pub parse_field-All :
      (t : Text) (f : Field)
      → parse_field unicode low high sunday t ≡ ok f
      → All (Between low high) f.values
  unfolding parse_field
  parse_field-All t f h = closed (add_items unicode low high sunday (split_on 44 t) []) refl h
    where
      closed :
          (r : Result Error (List ℕ))
          → add_items unicode low high sunday (split_on 44 t) [] ≡ r
          → close unicode low high sunday r ≡ ok f
          → All (Between low high) f.values
      closed (err x) e h = absurd (cc (h))
      closed (ok xs) e h =
          subst (λ (g : Field). All (Between low high) g.values) (ok-injective h)
            (add_items-All (split_on 44 t) [] xs tt e)

-- All the values that an expression names are in the range of their field, Sunday's as 0.
abbrev pub InRange : Expression → Type 0
InRange e =
    All (Between 0 59) e.minute.values
    × All (Between 0 23) e.hour.values
    × All (Between 1 31) e.day_of_month.values
    × All (Between 1 12) e.month.values
    × All (Between 0 6) e.day_of_week.values

made :
    (unicode : Unicode) (a b c d w : Text) (e : Expression)
    → parse_fields unicode (a ∷ b ∷ c ∷ d ∷ w ∷ []) ≡ ok e
    → InRange e
unfolding parse_fields
made unicode a b c d w e h =
    from (parse_field unicode 0 59 false a) (parse_field unicode 0 23 false b)
      (parse_field unicode 1 31 false c) (parse_field unicode 1 12 false d)
      (parse_field unicode 0 6 true w) (parse_field-All unicode 0 59 false (inl refl) a)
      (parse_field-All unicode 0 23 false (inl refl) b)
      (parse_field-All unicode 1 31 false (inl refl) c)
      (parse_field-All unicode 1 12 false (inl refl) d)
      (parse_field-All unicode 0 6 true (inr (refl, refl)) w) h
  where
    from :
        (p q r s t : Result Error Field)
        → ((f : Field) → p ≡ ok f → All (Between 0 59) f.values)
        → ((f : Field) → q ≡ ok f → All (Between 0 23) f.values)
        → ((f : Field) → r ≡ ok f → All (Between 1 31) f.values)
        → ((f : Field) → s ≡ ok f → All (Between 1 12) f.values)
        → ((f : Field) → t ≡ ok f → All (Between 0 6) f.values)
        → make unicode p q r s t ≡ ok e
        → InRange e
    from (ok p) (ok q) (ok r) (ok s) (ok t) hp hq hr hs ht h =
        subst InRange (ok-injective h) (hp p refl, hq q refl, hr r refl, hs s refl, ht t refl)
    from (err x) _ _ _ _ _ _ _ _ _ h = absurd (cc (h))
    from (ok _) (err x) _ _ _ _ _ _ _ _ h = absurd (cc (h))
    from (ok _) (ok _) (err x) _ _ _ _ _ _ _ h = absurd (cc (h))
    from (ok _) (ok _) (ok _) (err x) _ _ _ _ _ _ h = absurd (cc (h))
    from (ok _) (ok _) (ok _) (ok _) (err x) _ _ _ _ _ h = absurd (cc (h))

parse_fields-InRange :
    (unicode : Unicode) (ts : List Text) (e : Expression)
    → parse_fields unicode ts ≡ ok e
    → InRange e
unfolding parse_fields
parse_fields-InRange unicode (a ∷ b ∷ c ∷ d ∷ w ∷ []) e h = made unicode a b c d w e h
parse_fields-InRange unicode [] e h = absurd (cc (h))
parse_fields-InRange unicode (a ∷ []) e h = absurd (cc (h))
parse_fields-InRange unicode (a ∷ b ∷ []) e h = absurd (cc (h))
parse_fields-InRange unicode (a ∷ b ∷ c ∷ []) e h = absurd (cc (h))
parse_fields-InRange unicode (a ∷ b ∷ c ∷ d ∷ []) e h = absurd (cc (h))
parse_fields-InRange unicode (a ∷ b ∷ c ∷ d ∷ w ∷ x ∷ rest) e h = absurd (cc (h))

-- An expression that parses has, in each of its five fields, values within that field's range only
-- (minutes 0 to 59, hours 0 to 23, days 1 to 31, months 1 to 12, weekdays 0 to 6), and passed the
-- feasibility check.
pub parse-InRange :
    (unicode : Unicode) (text : String) (e : Expression)
    → parse unicode text ≡ ok e
    → InRange e × (validate_feasibility e ≡ ok tt)
unfolding parse
parse-InRange unicode text e h = valid (parse_fields unicode (words unicode (chars text))) refl h
  where
    passed :
        (f : Expression) (r : Result Error Unit)
        → validate_feasibility f ≡ r
        → checked unicode r f ≡ ok e
        → (f ≡ e) × (validate_feasibility f ≡ ok tt)
    passed f (ok tt) v h = (ok-injective h, v)
    passed f (err x) v h = absurd (cc (h))

    valid :
        (r : Result Error Expression)
        → parse_fields unicode (words unicode (chars text)) ≡ r
        → validated unicode r ≡ ok e
        → InRange e × (validate_feasibility e ≡ ok tt)
    valid (err x) from h = absurd (cc (h))
    valid (ok f) from h =
        let (same, v) = passed f (validate_feasibility f) refl h in
        subst (λ g. InRange g × (validate_feasibility g ≡ ok tt)) same
          (parse_fields-InRange unicode (words unicode (chars text)) f from, v)
