-- ===== src/EnumSet/Slice.antt =====
-- `Range` of an `EnumSet`, and the list of its members.
use ppb.Prelude.{
  ℕ, zero, suc, ◌-◌, ◌/◌, ◌<◌, ◌≤◌, ◌≡◌, refl, sym, ap, ◌∙◌, false, some, List, [], ◌∷◌, arith,
  if◌then◌else◌, eqb, eqb_iff, inl, inr, Bool-cases,
}
use ppb.Words.{
  and_not32, and_not32_lt, shift_one, power, power_pos, digit, digit_lt_two, digit-and_not32,
  digit-shift_one, digit-zero, word_ext,
}
use ppb.EnumSet.{bit_length, cons_bit, range}

-- The places of the digits of a word below a bound, the highest one first.
abbrev pub members : ℕ → ℕ → List ℕ
members zero x = []
members (suc i) x = let rest = members i x in if eqb (digit x i) 1 then i ∷ rest else rest

digit_high : (n x i : ℕ) → x < power n → n ≤ i → digit x i ≡ 0
digit_high zero x i h l = let e : x ≡ 0 = omega arith in rw e (digit-zero i)
digit_high (suc n) x zero h l = absurd (omega arith)
digit_high (suc n) x (suc i) h l = digit_high n (x / 2) i (omega arith) (omega arith)

-- The highest digit says on which side of its power a word is.
power_le : (n x : ℕ) → x < power (suc n) → digit x n ≡ 1 → power n ≤ x
power_le zero x h d = omega arith
power_le (suc n) x h d = omega (arith, power_le n (x / 2) (omega arith) d)

lt_power_of : (n x : ℕ) → x < power (suc n) → eqb (digit x n) 1 ≡ false → x < power n
lt_power_of zero x h d = ground arith
lt_power_of (suc n) x h d = omega (arith, lt_power_of n (x / 2) (omega arith) d)

bit_length-zero : (width : ℕ) → bit_length width 0 ≡ 0
unfolding bit_length
bit_length-zero zero = refl
bit_length-zero (suc width) = refl

bit_length-power :
    (width n x : ℕ) → n < width → power n ≤ x → x < power (suc n) → bit_length width x ≡ suc n
unfolding bit_length
bit_length-power zero n x l h k = absurd (omega arith)
bit_length-power (suc width) zero x l h k = ground (arith, bit_length-zero width)
bit_length-power (suc width) (suc n) x l h k =
    ground (
      arith,
      power_pos n,
      bit_length-power width n (x / 2) (omega arith) (omega arith) (omega arith),
    )

lt_of_digits :
    (width n x : ℕ) → x < power width → ((i : ℕ) → n ≤ i → i < width → digit x i ≡ 0) → x < power n
lt_of_digits width zero x h d =
    let e : x ≡ 0 =
      word_ext width x 0 h (power_pos width) (λ i l. d i (omega arith) l ∙ sym (digit-zero i)) in
    omega arith
lt_of_digits zero (suc n) x h d = omega (arith, power_pos n)
lt_of_digits (suc width) (suc n) x h d = omega (
  arith,
  lt_of_digits width n (x / 2) (omega arith) (λ i l k. d (suc i) (omega arith) (omega arith)),
)

members_same : (n x y : ℕ) → ((i : ℕ) → i < n → digit x i ≡ digit y i) → members n x ≡ members n y
members_same zero x y same = refl
members_same (suc n) x y same =
    rw (same n (omega arith), members_same n x y (λ i l. same i (omega arith)))

module _ (n x : ℕ) (small : n < 32) (h : x < power (suc n)) where
  digit_cleared : (i : ℕ) → i < n → digit (and_not32 x (shift_one n)) i ≡ digit x i
  digit_cleared i l = ground (arith, digit-and_not32 x (shift_one n) i, digit-shift_one n i small)

  cleared_lt : digit x n ≡ 1 → and_not32 x (shift_one n) < power n
  cleared_lt d =
      lt_of_digits 32 n (and_not32 x (shift_one n)) (and_not32_lt x (shift_one n)) (λ i l k.
        ground (
          arith,
          digit-and_not32 x (shift_one n) i k,
          digit-shift_one n i small,
          digit_high (suc n) x i h,
          digit_lt_two x i,
          d,
        ))

range-zero : (fuel : ℕ) → range fuel 0 ≡ some []
unfolding range
range-zero zero = refl
range-zero (suc fuel) = refl

range_step :
    (fuel x bit : ℕ) (bits : List ℕ)
    → 0 < x
    → bit_length 32 x ≡ suc bit
    → range fuel (and_not32 x (shift_one bit)) ≡ some bits
    → range (suc fuel) x ≡ some (bit ∷ bits)
unfolding range
range_step fuel zero bit bits p b r = absurd (omega arith)
range_step fuel (suc x) bit bits p b r =
    let e : bit_length 32 (suc x) - 1 ≡ bit = omega (arith, b) in
    ap (λ (i : ℕ). cons_bit i (range fuel (and_not32 (suc x) (shift_one i)))) e
    ∙ ap (cons_bit bit) r

-- With fuel for each place, `Range` returns the members.
pub range-members :
    (n fuel x : ℕ) → n < 33 → n ≤ fuel → x < power n → range fuel x ≡ some (members n x)
range-members zero fuel x s f h = let e : x ≡ 0 = omega arith in rw e (range-zero fuel)
range-members (suc n) zero x s f h = absurd (omega arith)
range-members (suc n) (suc fuel) x s f h = elim (Bool-cases (eqb (digit x n) 1)) [
  | inl on ↦
      let d : digit x n ≡ 1 = (eqb_iff (digit x n) 1).0 on in
      let y = and_not32 x (shift_one n) in
      let rest =
        range-members n fuel y (omega arith) (omega arith) (cleared_lt n x (omega arith) h d) in
      let same = members_same n y x (digit_cleared n x (omega arith) h) in
      rw on (
        range_step fuel x n (members n x) (omega (arith, power_le n x h d, power_pos n))
          (bit_length-power 32 n x (omega arith) (power_le n x h d) h) (rw same at rest))
  | inr off ↦
      rw off (range-members n (suc fuel) x (omega arith) (omega arith) (lt_power_of n x h off))
]
