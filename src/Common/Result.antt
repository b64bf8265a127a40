-- ===== src/Common/Result.antt =====
-- Calls that may raise, and methods of an object that raise and keep what was written before.
use qa_platform_learning.Common.Tests.{
  ◌≡◌, refl, ◌⊎◌, inl, inr, Bool, true, false, Option, none, some,
}

pub data Result (E A : Type 0) : Type 0 where
  ok : A → Result E A
  err : E → Result E A

-- The new state comes back after a raise too.
abbrev pub Action : Type 0 → Type 0 → Type 0 → Type 0
Action S E A = S → Result E A × S

module _ {S E A : Type 0} where
  unfoldable pub pure : A → Action S E A
  pure a s = (ok a, s)

  unfoldable pub raise : E → Action S E A
  raise e s = (err e, s)

  unfoldable pub gets : (S → A) → Action S E A
  gets f s = (ok (f s), s)

  unfoldable pub lift : Result E A → Action S E A
  lift r s = (r, s)

  -- A lookup whose miss raises.
  unfoldable pub find : (S → Option A) → E → Action S E A
  find look e s = elim (look s) [ none ↦ (err e, s) | some a ↦ (ok a, s) ]

module _ {S E : Type 0} where
  unfoldable pub raise_if : Bool → E → Action S E (Unit {0})
  raise_if true e s = (err e, s)
  raise_if false e s = (ok tt, s)

  unfoldable pub modify : (S → S) → Action S E (Unit {0})
  modify f s = (ok tt, f s)

module _ {S E A B : Type 0} where
  abbrev pub continue : Result E A → (A → Action S E B) → Action S E B
  continue (ok a) f s = f a s
  continue (err e) f s = (err e, s)

  infixl 5 ◌>>=◌
  -- opening this opens the actions above too
  unfoldable pub ◌>>=◌ : Action S E A → (A → Action S E B) → Action S E B
  unfolding pure raise gets lift find raise_if modify
  ◌>>=◌ m f s = let (r, s') = m s in continue r f s'

module _ {S E B : Type 0} where
  infixl 5 ◌>>◌
  abbrev pub ◌>>◌ : Action S E (Unit {0}) → Action S E B → Action S E B
  m >> k = m >>= λ _. k

pub Result-cases :
    {E A : Type 0} (r : Result E A) → ((a : A) × (r ≡ ok a)) ⊎ ((e : E) × (r ≡ err e))
Result-cases (ok a) = inl (a, refl)
Result-cases (err e) = inr (e, refl)
