-- ===== src/EnumSet.antt =====
-- `EnumSet` of internal/base/Enums.go: a set of values of an enumeration, in the bits of an `int32`,
-- which is given by those bits.
pub mod Bits
pub mod Slice
pub mod Text
mod Runs
use ppb.Prelude.{
  Bytes, ℕ, zero, suc, ◌+◌, ◌-◌, ◌/◌, ◌%◌, ◌≡◌, refl, Bool, true, false, not, Option, none, some,
  List, [], ◌∷◌, ◌++◌, arith, if◌then◌else◌, eqb, ltb, leb, foldl,
}
use ppb.Words.{or32, and32, and_not32, shift_one}

-- What the set asks of its values: `EnumValue`, with `flag.Value`. `from_ord` is the conversion of a
-- number, which has a text only if it is a constant; `set` gives `none` on an error.
pub record EnumValue (T : Type 0) : Type 0 where
  pub ord : T → ℕ
  pub from_ord : ℕ → Option T
  pub text : T → Bytes
  pub set : Bytes → Option T

-- `has`, of the number of a value
unfoldable pub has_bit : ℕ → ℕ → Bool
unfolding and32
has_bit x i = eqb (and32 x (shift_one i)) (shift_one i)

-- `(int32(1) << n) - int32(1)`
unfoldable pub ones_below : ℕ → ℕ
ones_below n = (shift_one n + 4294967295) % 4294967296

-- `bits.Len32`, for a word of that width
unfoldable pub bit_length : ℕ → ℕ → ℕ
bit_length zero x = 0
bit_length (suc width) x = let rest = bit_length width (x / 2) in if eqb x 0 then 0 else suc rest

abbrev pub cons_bit : ℕ → Option (List ℕ) → Option (List ℕ)
cons_bit bit none = none
cons_bit bit (some bits) = some (bit ∷ bits)

-- `Range`, as the list of the numbers of the values, from the highest one. `none` is without fuel.
unfoldable pub range : ℕ → ℕ → Option (List ℕ)
unfolding bit_length and_not32
range fuel zero = some []
range zero (suc x) = none
range (suc fuel) (suc x) =
    let bit = bit_length 32 (suc x) - 1 in
    cons_bit bit (range fuel (and_not32 (suc x) (shift_one bit)))

module _ {T : Type 0} (value : EnumValue T) where
  unfoldable pub new_enum_set : List T → ℕ
  unfolding or32
  new_enum_set list = foldl (λ result it. or32 result (shift_one (value.ord it))) 0 list

  unfoldable pub has : ℕ → T → Bool
  unfolding has_bit
  has x it = has_bit x (value.ord it)

  unfoldable pub intersect : ℕ → ℕ → ℕ
  unfolding and32
  intersect x other = and32 x other

  unfoldable pub any : ℕ → List T → Bool
  unfolding intersect new_enum_set
  any x list = not (eqb (intersect x (new_enum_set list)) 0)

  unfoldable pub all : ℕ → List T → Bool
  unfolding intersect new_enum_set
  all x list = eqb (intersect x (new_enum_set list)) (new_enum_set list)

  unfoldable pub greater_than : ℕ → T → ℕ
  unfolding and_not32 ones_below
  greater_than x pivot = and_not32 x (ones_below (value.ord pivot + 1))

  unfoldable pub greater_than_equal : ℕ → T → ℕ
  unfolding and_not32 ones_below
  greater_than_equal x pivot = and_not32 x (ones_below (value.ord pivot))

  unfoldable pub less_than : ℕ → T → ℕ
  unfolding and32 ones_below
  less_than x pivot = and32 x (ones_below (value.ord pivot))

  unfoldable pub less_than_equal : ℕ → T → ℕ
  unfolding and32 ones_below
  less_than_equal x pivot = and32 x (ones_below (value.ord pivot + 1))

  unfoldable pub append : ℕ → ℕ → ℕ
  unfolding or32
  append x other = or32 x other

  unfoldable pub add : ℕ → List T → ℕ
  unfolding append new_enum_set
  add x list = append x (new_enum_set list)

  unfoldable pub remove_all : ℕ → ℕ → ℕ
  unfolding and_not32
  remove_all x other = and_not32 x other

  unfoldable pub remove : ℕ → List T → ℕ
  unfolding remove_all new_enum_set
  remove x list = remove_all x (new_enum_set list)

  -- `Test` and `Select`
  unfoldable pub test : ℕ → Bytes → Bool
  unfolding has
  test x v = elim (value.set v) [ none ↦ false | some parsed ↦ has x parsed ]

  unfoldable pub select : ℕ → Bytes → Bool → Option ℕ
  unfolding add remove
  select x v enabled = elim (value.set v) [
    | none ↦ none
    | some parsed ↦ some (if enabled then add x (parsed ∷ []) else remove x (parsed ∷ []))
  ]
