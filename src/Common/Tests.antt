-- ===== src/Common/Tests.antt =====
-- Tests into Bool on numbers and texts, the conditional, and equality as an interface.
pub use Prim.Native.Nat.{
  ℕ, zero, suc, ◌+◌, ◌-◌, ◌*◌, ◌/◌, ◌%◌, ◌^◌, ◌≤◌, ◌<◌, min, compare, Ordering,
}
pub use Prim.Native.String.{String}
pub use mathlib.Core.Path.{◌≡◌, refl, sym, ap, ◌∙◌}
pub use mathlib.Core.Logic.{◌≢◌, ◌↔◌, ◌⊎◌, inl, inr}
pub use mathlib.Core.Bool.{Bool, true, false, not, ◌&&◌, ◌||◌}
pub use mathlib.Core.Option.{Option, none, some}
pub use mathlib.Core.List.{List, [], ◌∷◌, ◌++◌, map, reverse}
pub use native.Mathlib.Omega.{arith}
use Prim.Native.String.{count}
use text.Mathlib.Text.{◌==◌ as str_eq}
use text.Mathlib.TextEquality.{eq_iff}

abbrev pub ltb : ℕ → ℕ → Bool
ltb a b = elim (compare a b) [ Ordering.lt ↦ true | _ ↦ false ]

abbrev pub leb : ℕ → ℕ → Bool
leb a b = elim (compare a b) [ Ordering.gt ↦ false | _ ↦ true ]

abbrev pub nat_beq : ℕ → ℕ → Bool
nat_beq a b = elim (compare a b) [ Ordering.eq ↦ true | _ ↦ false ]

pub nat_beq_iff : (a b : ℕ) → (nat_beq a b ≡ true) ↔ (a ≡ b)
nat_beq_iff a b = ground arith

-- The truth value of a container or of an optional in a condition.
abbrev pub is_some {ℓ} : {A : Type ℓ} → Option A → Bool
is_some none = false
is_some (some _) = true

-- The number of characters of a text, Python's `len`.
abbrev pub text_length : String → ℕ
text_length = count

abbrev pub is_blank : String → Bool
is_blank s = nat_beq (text_length s) 0

-- `min_length` and `max_length` of a text field.
abbrev pub text_between : ℕ → ℕ → String → Bool
text_between low high s = leb low (text_length s) && leb (text_length s) high

infix 1 if◌then◌else◌
abbrev pub if◌then◌else◌ {ℓ} : {A : Type ℓ} → Bool → A → A → A
if true then x else _ = x
if false then _ else y = y

-- A type whose values the code compares, as keys of a dictionary or in a condition.
pub record Keyed {ℓ} (K : Type ℓ) : Type ℓ where
  pub agree : K → K → Bool
  pub agree_iff : (j k : K) → (agree j k ≡ true) ↔ (j ≡ k)

instance abbrev pub text_keyed : Keyed String
text_keyed = record { agree = str_eq; agree_iff = eq_iff }

instance abbrev pub nat_keyed : Keyed ℕ
nat_keyed = record { agree = nat_beq; agree_iff = nat_beq_iff }

infix 50 ◌==◌
abbrev pub ◌==◌ {ℓ} : {K : Type ℓ} ⦃e : Keyed K⦄ → K → K → Bool
◌==◌ ⦃e⦄ j k = e.agree j k

pub pair_agree_iff {ℓ κ} :
    {A : Type ℓ} {B : Type κ} (d : Keyed A) (e : Keyed B) (p q : A × B)
    → ((d.agree p.0 q.0 && e.agree p.1 q.1) ≡ true) ↔ (p ≡ q)
pair_agree_iff d e (a, b) (c, f) = ground (arith, d.agree_iff a c, e.agree_iff b f)

instance abbrev pub pair_keyed {ℓ κ} :
    {A : Type ℓ} {B : Type κ} ⦃d : Keyed A⦄ ⦃e : Keyed B⦄ → Keyed (A × B)
pair_keyed ⦃d⦄ ⦃e⦄ = record {
  agree = λ p q. d.agree p.0 q.0 && e.agree p.1 q.1;
  agree_iff = pair_agree_iff d e;
}

pub agree_refl {ℓ} : {A : Type ℓ} ⦃e : Keyed A⦄ (a : A) → (a == a) ≡ true
agree_refl ⦃e⦄ a = (e.agree_iff a a).1 refl

pub Bool-cases : (b : Bool) → (b ≡ true) ⊎ (b ≡ false)
Bool-cases true = inl refl
Bool-cases false = inr refl

pub Option-cases {ℓ} : {A : Type ℓ} (o : Option A) → (o ≡ none) ⊎ ((a : A) × (o ≡ some a))
Option-cases none = inl refl
Option-cases (some a) = inr (a, refl)

pub true_of_not : (b : Bool) → not b ≡ false → b ≡ true
true_of_not true h = refl
true_of_not false h = cc
