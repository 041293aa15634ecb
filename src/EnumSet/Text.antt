-- ===== src/EnumSet/Text.antt =====
-- `String` and `Set` of an `EnumSet`: the texts of its values between bars. Texts are ASCII.
pub mod RoundTrip
use ppb.Prelude.{
  Bytes, ℕ, zero, suc, ◌≡◌, refl, Bool, true, false, ◌||◌, Option, none, some, List, [], ◌∷◌, ◌++◌,
  if◌then◌else◌, eqb, leb, ◌&&◌,
}
use mathlib.Core.List.{reverse}
use ppb.EnumSet.{EnumValue, range, new_enum_set, add}

-- `strings.Split` at a bar
unfoldable pub first_to : ℕ → List Bytes → List Bytes
first_to c [] = (c ∷ []) ∷ []
first_to c (piece ∷ pieces) = (c ∷ piece) ∷ pieces

unfoldable pub split : Bytes → List Bytes
unfolding first_to
split [] = [] ∷ []
split (c ∷ s) = if eqb c 124 then [] ∷ split s else first_to c (split s)

-- `unicode.IsSpace`
abbrev pub is_space : ℕ → Bool
is_space c = leb 9 c && leb c 13 || eqb c 32

-- `strings.TrimSpace`
unfoldable pub trim_left : Bytes → Bytes
trim_left [] = []
trim_left (c ∷ s) = if is_space c then trim_left s else c ∷ s

unfoldable pub trim_space : Bytes → Bytes
unfolding trim_left
trim_space s = reverse (trim_left (reverse (trim_left s)))

-- What the string builder has at the end: a bar before each text but the first one.
unfoldable pub join : List Bytes → Bytes
join [] = []
join (t ∷ []) = t
join (t ∷ u ∷ texts) = t ++ 124 ∷ join (u ∷ texts)

module _ {T : Type 0} (value : EnumValue T) where
  -- The texts of the numbers. `none` is the panic on a number that is no constant.
  unfoldable pub texts : List ℕ → Option (List Bytes)
  texts [] = some []
  texts (bit ∷ bits) = elim (value.from_ord bit) [
    | none ↦ none
    | some it ↦ elim (texts bits) [ none ↦ none | some rest ↦ some (value.text it ∷ rest) ]
  ]

  unfoldable pub string : ℕ → Option Bytes
  unfolding range texts join
  string x = elim (range 32 x) [
    | none ↦ none
    | some bits ↦ elim (texts bits) [ none ↦ none | some them ↦ some (join them) ]
  ]

  -- The loop of `Set`. `none` is an error.
  unfoldable pub set_each : ℕ → List Bytes → Option ℕ
  unfolding trim_space add
  set_each x [] = some x
  set_each x (s ∷ pieces) = elim (value.set (trim_space s)) [
    | none ↦ none
    | some it ↦ set_each (add value x (it ∷ [])) pieces
  ]

  unfoldable pub set : Bytes → Option ℕ
  unfolding set_each split
  set in_ = set_each 0 (split in_)
