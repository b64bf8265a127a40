-- ===== src/Automation/Cron/Text.antt =====
-- What backend/app/automation/cron.py uses of Python's texts: `split`, `partition` and `int`, on lists
-- of characters. Which characters are white space or decimal digits is Unicode's, a parameter.
use qa_platform_learning.Common.Tests.{
  ℕ, zero, suc, ◌+◌, ◌*◌, Bool, true, false, ◌&&◌, Option, none, some, List, [], ◌∷◌, reverse,
  nat_beq, leb, String, if◌then◌else◌,
}
use Prim.Native.Char.{Char, code}
use qa_platform_learning.Common.Lists.{is_empty}
use qa_platform_learning.Common.Time.{ℤ, pos, negsuc}

pub record Unicode : Type 0 where
  pub is_space : Char → Bool
  pub digit : Char → Option ℕ

abbrev pub Text : Type 0
Text = List Char

unfoldable pub chars : String → Text
chars String.[] = []
chars (String.◌∷◌ c s) = c ∷ chars s

-- Is it the ASCII character with this code?
abbrev pub has_code : ℕ → Char → Bool
has_code n c = nat_beq (code c) n

-- A character before a list of pieces joins the first of them.
abbrev pub join_first : Char → List Text → List Text
join_first c [] = (c ∷ []) ∷ []
join_first c (t ∷ ts) = (c ∷ t) ∷ ts

-- `text.split(separator)`
unfoldable pub split_on : ℕ → Text → List Text
split_on sep [] = [] ∷ []
split_on sep (c ∷ s) =
    let rest = split_on sep s in if has_code sep c then [] ∷ rest else join_first c rest

-- `text.partition(separator)`: what is before it, and what is after it where it occurs.
unfoldable pub partition : ℕ → Text → Text × Option Text
partition sep [] = ([], none)
partition sep (c ∷ s) =
    let (before, after) = partition sep s in
    if has_code sep c then ([], some s) else (c ∷ before, after)

abbrev pub drop_empty : List Text → List Text
drop_empty [] = []
drop_empty (t ∷ ts) = let rest = drop_empty ts in if is_empty t then rest else t ∷ rest

module _ (unicode : Unicode) where
  unfoldable pub split_spaces : Text → List Text
  split_spaces [] = [] ∷ []
  split_spaces (c ∷ s) =
      let rest = split_spaces s in if unicode.is_space c then [] ∷ rest else join_first c rest

  -- `text.split()`
  abbrev pub words : Text → List Text
  words s = drop_empty (split_spaces s)

  abbrev pub strip_left : Text → Text
  strip_left [] = []
  strip_left (c ∷ s) = let rest = strip_left s in if unicode.is_space c then rest else c ∷ s

  abbrev pub strip : Text → Text
  strip s = reverse (strip_left (reverse (strip_left s)))

  -- Digits with single underscores between them, read after `n` digits with the value `v`; `ended`
  -- tells whether a digit came last.
  unfoldable pub digits_from : (n v : ℕ) → (ended : Bool) → Text → Option (ℕ × ℕ)
  digits_from n v ended [] = if ended then some (n, v) else none
  digits_from n v ended (c ∷ s) =
      let skipped = digits_from n v false s in
      elim (unicode.digit c) [
        | some d ↦ digits_from (n + 1) (v * 10 + d) true s
        | none ↦ if ended && has_code 95 c then skipped else none
      ]

  -- Python reads at most 4300 digits.
  abbrev pub natural : Text → Option ℕ
  natural s = elim (digits_from 0 0 false s) [
    | some (n, v) ↦ if leb n 4300 then some v else none
    | none ↦ none
  ]

  abbrev pub positive : Option ℕ → Option ℤ
  positive none = none
  positive (some n) = some (pos n)

  abbrev pub negative : Option ℕ → Option ℤ
  negative none = none
  negative (some zero) = some (pos 0)
  negative (some (suc n)) = some (negsuc n)

  abbrev pub signed : Text → Option ℤ
  signed [] = none
  signed (c ∷ s) =
      if has_code 45 c
      then negative (natural s)
      else if has_code 43 c
      then positive (natural s)
      else positive (natural (c ∷ s))

  -- `int(text)`; none stands for the ValueError.
  unfoldable pub int : Text → Option ℤ
  int s = signed (strip s)
