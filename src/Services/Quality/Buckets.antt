-- ===== src/Services/Quality/Buckets.antt =====
-- The buckets of the trends (backend/app/services/quality.py): every date of a span has exactly one, and what
-- the buckets count adds up.
use qa_platform_learning.Common.Tests.{
  ℕ, zero, suc, ◌+◌, ◌-◌, ◌≤◌, ◌<◌, ◌≡◌, refl, sym, ap, ◌∙◌, inl, inr, Bool, true, false, Option,
  none, some, List, [], ◌∷◌, map, arith, nat_beq, nat_beq_iff, Bool-cases, if◌then◌else◌,
}
use qa_platform_learning.Common.Lists.{All}
use qa_platform_learning.Services.Suites.Operations.{visited_has}
use qa_platform_learning.Services.Quality.Figures.{count, within}
use qa_platform_learning.Services.Quality.Trends.{
  Granularity, Span, period_of, bucket_of_date, local_date, bucket_starts, period_bucket_starts,
  in_bucket, in_span,
}

-- A bucket that was seen does not come again.
not_again :
    (b n : ℕ) (g : Granularity) (c : ℕ) (seen : List ℕ)
    → visited_has seen b ≡ true
    → count (λ i. nat_beq b i) (bucket_starts n g c seen) ≡ 0
unfolding bucket_starts
not_again b zero g c seen old = refl
not_again b (suc n) g c seen old = elim (Bool-cases (visited_has seen (bucket_of_date g c))) [
  | inl known ↦ rw known (not_again b n g (suc c) seen old)
  | inr new ↦ elim (Bool-cases (nat_beq b (bucket_of_date g c))) [
    | inl same ↦
        absurd
          (cc (sym old ∙ ap (visited_has seen) ((nat_beq_iff b (bucket_of_date g c)).0 same) ∙ new))
    | inr other ↦
        rw new
          (rw other (not_again b n g (suc c) (bucket_of_date g c ∷ seen) (ground (arith, old))))
  ]
]

nat_beq_apart : (a b : ℕ) → nat_beq a b ≡ false → nat_beq b a ≡ false
nat_beq_apart a b h = ground arith

exactly_once :
    (d n : ℕ) (g : Granularity) (c : ℕ) (seen : List ℕ)
    → c ≤ d
    → d < c + n
    → visited_has seen (bucket_of_date g d) ≡ false
    → count (λ i. nat_beq (bucket_of_date g d) i) (bucket_starts n g c seen) ≡ 1
unfolding bucket_starts
exactly_once d zero g c seen low high new = absurd (ground (arith, low, high))
exactly_once d (suc n) g c seen low high new =
    elim (Bool-cases (nat_beq (bucket_of_date g d) (bucket_of_date g c))) [
      | inl same ↦
          let e = (nat_beq_iff (bucket_of_date g d) (bucket_of_date g c)).0 same in
          rw (ap (visited_has seen) (sym e) ∙ new) (
            rw same (
              ap (λ k. suc k)
                (not_again (bucket_of_date g d) n g (suc c) (bucket_of_date g c ∷ seen) (
                  ground
                    (arith, (nat_beq_iff (bucket_of_date g c) (bucket_of_date g d)).1 (sym e))))))
      | inr other ↦ elim (Bool-cases (visited_has seen (bucket_of_date g c))) [
        | inl known ↦
            rw known (exactly_once d n g (suc c) seen (later other) (ground (arith, high)) new)
        | inr fresh ↦ rw fresh (
            rw other (
              exactly_once d n g (suc c) (bucket_of_date g c ∷ seen) (later other)
                (ground (arith, high))
                (ground
                  (arith, new, nat_beq_apart (bucket_of_date g d) (bucket_of_date g c) other))))
      ]
    ]
  where
    later : nat_beq (bucket_of_date g d) (bucket_of_date g c) ≡ false → suc c ≤ d
    later other = elim (Bool-cases (nat_beq c d)) [
      | inl same ↦ absurd (
          cc (
            sym other
            ∙ (nat_beq_iff (bucket_of_date g d) (bucket_of_date g c)).1
                (ap (bucket_of_date g) (sym ((nat_beq_iff c d).0 same)))))
      | inr differs ↦ ground (arith, low, differs)
    ]

-- Every time in a span falls in exactly one of its buckets.
pub one_bucket :
    (s : Span) (g : Granularity) (time : ℕ)
    → in_span s (some time) ≡ true
    → count (λ b. in_bucket g s.offset b (some time)) (period_bucket_starts s g) ≡ 1
one_bucket s g time inside =
    exactly_once (local_date s.offset time) (s.date_to + 1 - s.date_from) g s.date_from []
      (ground (arith, inside)) (ground (arith, inside)) refl

-- The dates of a span are those of the period between its bounds.
pub in_span-within : (s : Span) (time : Option ℕ) → within (period_of s) time ≡ in_span s time
in_span-within s none = refl
in_span-within s (some time) = ground arith

-- The sum of a function over a list, and over the elements that pass a test.
abbrev pub sum : {A : Type 0} → (A → ℕ) → List A → ℕ
sum w [] = 0
sum w (x ∷ xs) = w x + sum w xs

abbrev pub weigh : {A : Type 0} → (A → Bool) → (A → ℕ) → List A → ℕ
weigh p w [] = 0
weigh p w (x ∷ xs) = let rest = weigh p w xs in if p x then w x + rest else rest

-- A test that no bucket passes, and one that exactly one does.
module _ {A : Type 0} (p : ℕ → A → Bool) (w : A → ℕ) (x : A) (xs : List A) where
  spread_none :
      (bs : List ℕ)
      → count (λ b. p b x) bs ≡ 0
      → sum (λ b. weigh (p b) w (x ∷ xs)) bs ≡ sum (λ b. weigh (p b) w xs) bs
  spread_none [] h = refl
  spread_none (b ∷ bs) h = elim (Bool-cases (p b x)) [
    | inl has ↦ absurd (ground (arith, rw has at h))
    | inr lacks ↦ rw lacks (ap (λ n. weigh (p b) w xs + n) (spread_none bs (rw lacks at h)))
  ]

  spread_one :
      (bs : List ℕ)
      → count (λ b. p b x) bs ≡ 1
      → sum (λ b. weigh (p b) w (x ∷ xs)) bs ≡ w x + sum (λ b. weigh (p b) w xs) bs
  spread_one [] h = absurd (ground (arith, h))
  spread_one (b ∷ bs) h = elim (Bool-cases (p b x)) [
    | inl has ↦ rw has (ground (arith, spread_none bs (ground (arith, rw has at h))))
    | inr lacks ↦ rw lacks (ground (arith, spread_one bs (rw lacks at h)))
  ]

sum_zero : (bs : List ℕ) → sum (λ (b : ℕ). 0) bs ≡ 0
sum_zero [] = refl
sum_zero (b ∷ bs) = ground (arith, sum_zero bs)

-- Elements that each pass the tests of exactly one bucket, if they pass `q`, and of none else, are counted once.
pub spread :
    {A : Type 0} (p : ℕ → A → Bool) (q : A → Bool) (w : A → ℕ) (bs : List ℕ) (xs : List A)
    → All (λ x. count (λ b. p b x) bs ≡ (if q x then 1 else 0)) xs
    → sum (λ b. weigh (p b) w xs) bs ≡ weigh q w xs
spread p q w bs [] h = sum_zero bs
spread p q w bs (x ∷ xs) (once, rest) = elim (Bool-cases (q x)) [
  | inl yes_q ↦
      rw yes_q
        (spread_one p w x xs bs (rw yes_q at once) ∙ ap (λ n. w x + n) (spread p q w bs xs rest))
  | inr no_q ↦ rw no_q (spread_none p w x xs bs (rw no_q at once) ∙ spread p q w bs xs rest)
]

pub sum-cong :
    {A : Type 0} (f g : A → ℕ) → ((x : A) → f x ≡ g x) → (xs : List A) → sum f xs ≡ sum g xs
sum-cong f g h [] = refl
sum-cong f g h (x ∷ xs) = ap (λ n. n + sum f xs) (h x) ∙ ap (λ n. g x + n) (sum-cong f g h xs)

pub sum-map :
    {A B : Type 0} (f : B → ℕ) (g : A → B) (xs : List A) → sum f (map g xs) ≡ sum (λ x. f (g x)) xs
sum-map f g [] = refl
sum-map f g (x ∷ xs) = ap (λ n. f (g x) + n) (sum-map f g xs)

pub count-weigh : {A : Type 0} (p : A → Bool) (xs : List A) → count p xs ≡ weigh p (λ _. 1) xs
count-weigh p [] = refl
count-weigh p (x ∷ xs) = ground (arith, count-weigh p xs)

pub weigh-cong :
    {A : Type 0} (p q : A → Bool) (w : A → ℕ)
    → ((x : A) → p x ≡ q x)
    → (xs : List A) → weigh p w xs ≡ weigh q w xs
weigh-cong p q w h [] = refl
weigh-cong p q w h (x ∷ xs) = ground (arith, h x, weigh-cong p q w h xs)
