-- ===== src/Common/Lists.antt =====
-- Lists measured by native numbers, filtered by a test, and searched for a least element.
use qa_platform_learning.Common.Tests.{
  ℕ, zero, suc, ◌+◌, ◌-◌, ◌≡◌, refl, ap, Bool, true, false, ◌||◌, ◌&&◌, List, [], ◌∷◌, ◌++◌, arith,
  if◌then◌else◌, ◌⊎◌, inl, inr, Bool-cases,
}

module _ {ℓ} {A : Type ℓ} where
  abbrev pub length : List A → ℕ
  length [] = 0
  length (_ ∷ xs) = suc (length xs)

  abbrev pub is_empty : List A → Bool
  is_empty [] = true
  is_empty (_ ∷ _) = false

  abbrev pub any : (A → Bool) → List A → Bool
  any p [] = false
  any p (x ∷ xs) = p x || any p xs

  abbrev pub all : (A → Bool) → List A → Bool
  all p [] = true
  all p (x ∷ xs) = p x && all p xs

  -- `[x for x in xs if p(x)]`
  abbrev pub select : (A → Bool) → List A → List A
  select p [] = []
  select p (x ∷ xs) = let rest = select p xs in if p x then x ∷ rest else rest

  abbrev pub take : ℕ → List A → List A
  take zero xs = []
  take (suc n) [] = []
  take (suc n) (x ∷ xs) = x ∷ take n xs

  abbrev pub drop : ℕ → List A → List A
  drop zero xs = xs
  drop (suc n) [] = []
  drop (suc n) (x ∷ xs) = drop n xs

  pub take-append-drop : (n : ℕ) (xs : List A) → take n xs ++ drop n xs ≡ xs
  take-append-drop zero xs = refl
  take-append-drop (suc n) [] = refl
  take-append-drop (suc n) (x ∷ xs) = ap (λ ys. x ∷ ys) (take-append-drop n xs)

  pub length-append : (xs ys : List A) → length (xs ++ ys) ≡ length xs + length ys
  length-append [] ys = omega arith
  length-append (x ∷ xs) ys = omega (arith, length-append xs ys)

  pub length-drop : (n : ℕ) (xs : List A) → length (drop n xs) ≡ length xs - n
  length-drop zero xs = omega arith
  length-drop (suc n) [] = omega arith
  length-drop (suc n) (x ∷ xs) = omega (arith, length-drop n xs)

-- A predicate of every element, and of some element, by recursion on the list.
abbrev pub All {ℓ κ} : {A : Type ℓ} → (A → Type κ) → List A → Type κ
All P [] = Unit
All P (x ∷ xs) = P x × All P xs

abbrev pub Among : {A : Type 0} → A → List A → Type 0
Among a [] = ⊥
Among a (x ∷ xs) = (x ≡ a) ⊎ Among a xs

-- What holds of every element holds of those that are selected, which pass the test besides.
pub All-select {ℓ} :
    {A : Type 0} (Q : A → Type ℓ) (p : A → Bool) (xs : List A)
    → All Q xs
    → All (λ x. Q x × (p x ≡ true)) (select p xs)
All-select Q p [] h = tt
All-select Q p (x ∷ xs) h = elim (Bool-cases (p x)) [
  | inl passes ↦ rw passes ((h.0, passes), All-select Q p xs h.1)
  | inr fails ↦ rw fails (All-select Q p xs h.1)
]

pub All-map {ℓ κ} :
    {A : Type 0} (Q : A → Type ℓ) (R : A → Type κ)
    → ((x : A) → Q x → R x)
    → (xs : List A) → All Q xs
    → All R xs
All-map Q R f [] h = tt
All-map Q R f (x ∷ xs) h = (f x h.0, All-map Q R f xs h.1)

-- Python's `min` by a strict order: the first of the least.
unfoldable pub least_by : {A : Type 0} → (A → A → Bool) → A → List A → A
least_by before x [] = x
least_by before x (y ∷ ys) = least_by before (if before y x then y else x) ys

pub All-least_by :
    {A : Type 0} (Q : A → Type 0) (before : A → A → Bool) (x : A) (ys : List A)
    → Q x
    → All Q ys
    → Q (least_by before x ys)
unfolding least_by
All-least_by Q before x [] h hs = h
All-least_by Q before x (y ∷ ys) h hs =
    All-least_by Q before (if before y x then y else x) ys (chosen (before y x)) hs.1
  where
    chosen : (b : Bool) → Q (if b then y else x)
    chosen true = hs.0
    chosen false = h
