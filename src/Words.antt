-- ===== src/Words.antt =====
-- The bit operations of 32-bit words, by their binary digits.
use ppb.Prelude.{ℕ, zero, suc, ◌+◌, ◌-◌, ◌*◌, ◌/◌, ◌%◌, ◌<◌, ◌≡◌, arith, if◌then◌else◌, eqb}
use Prim.Native.Nat.{min, max}

-- An operation on single digits, on each of the lowest digits of two words.
unfoldable pub word_op : (ℕ → ℕ → ℕ) → ℕ → ℕ → ℕ → ℕ
word_op f zero a b = 0
word_op f (suc width) a b = f (a % 2) (b % 2) + 2 * word_op f width (a / 2) (b / 2)

-- `a | b`, `a & b` and `a & ^b` on an `int32`
unfoldable pub or32 : ℕ → ℕ → ℕ
unfolding word_op
or32 a b = word_op max 32 a b

unfoldable pub and32 : ℕ → ℕ → ℕ
unfolding word_op
and32 a b = word_op min 32 a b

unfoldable pub and_not32 : ℕ → ℕ → ℕ
unfolding word_op
and_not32 a b = word_op (λ x y. x - y) 32 a b

-- The power of two.
abbrev pub power : ℕ → ℕ
power zero = 1
power (suc i) = 2 * power i

-- `int32(1) << i`: 0 when the bit is shifted out.
abbrev pub shift_one : ℕ → ℕ
shift_one i = power i % 4294967296

-- The digit of a word at a place.
abbrev pub digit : ℕ → ℕ → ℕ
digit x zero = x % 2
digit x (suc i) = digit (x / 2) i

pub digit_lt_two : (x i : ℕ) → digit x i < 2
digit_lt_two x zero = omega arith
digit_lt_two x (suc i) = digit_lt_two (x / 2) i

pub digit-word_op :
    (f : ℕ → ℕ → ℕ) (width a b i : ℕ)
    → ((x y : ℕ) → f (x % 2) (y % 2) < 2)
    → i < width
    → digit (word_op f width a b) i ≡ f (digit a i) (digit b i)
unfolding word_op
digit-word_op f zero a b i small h = absurd (omega arith)
digit-word_op f (suc width) a b zero small h = omega (arith, small a b)
digit-word_op f (suc width) a b (suc i) small h =
    let half : (f (a % 2) (b % 2) + 2 * word_op f width (a / 2) (b / 2)) / 2
        ≡ word_op f width (a / 2) (b / 2) =
      omega (arith, small a b) in
    rw half (digit-word_op f width (a / 2) (b / 2) i small (omega arith))

pub word_op_lt :
    (f : ℕ → ℕ → ℕ) (width a b : ℕ)
    → ((x y : ℕ) → f (x % 2) (y % 2) < 2)
    → word_op f width a b < power width
unfolding word_op
word_op_lt f zero a b small = omega arith
word_op_lt f (suc width) a b small =
    omega (arith, small a b, word_op_lt f width (a / 2) (b / 2) small)

-- Words with the same digits are equal.
pub word_ext :
    (width a b : ℕ)
    → a < power width
    → b < power width
    → ((i : ℕ) → i < width → digit a i ≡ digit b i)
    → a ≡ b
word_ext zero a b h k same = omega arith
word_ext (suc width) a b h k same = omega (
  arith,
  same 0 (omega arith),
  word_ext width (a / 2) (b / 2) (omega arith) (omega arith) (λ i l. same (suc i) (omega arith)),
)

pub digit-zero : (i : ℕ) → digit 0 i ≡ 0
digit-zero zero = omega arith
digit-zero (suc i) = digit-zero i

pub digit-power : (i j : ℕ) → digit (power i) j ≡ (if eqb i j then 1 else 0)
digit-power zero zero = omega arith
digit-power zero (suc j) = ground (arith, digit-zero j)
digit-power (suc i) zero = ground arith
digit-power (suc i) (suc j) =
    let half : 2 * power i / 2 ≡ power i = omega arith in rw half (ground (arith, digit-power i j))

pub power_pos : (n : ℕ) → 0 < power n
power_pos zero = omega arith
power_pos (suc n) = omega (arith, power_pos n)

pub power_mono : (i w : ℕ) → i < w → power i < power w
power_mono i zero h = absurd (omega arith)
power_mono zero (suc zero) h = omega arith
power_mono zero (suc (suc w)) h = omega (arith, power_mono zero (suc w) (omega arith))
power_mono (suc i) (suc w) h = omega (arith, power_mono i w (omega arith))

-- The digits of the operations, within the 32 places.
pub digit-or32 : (a b i : ℕ) → i < 32 → digit (or32 a b) i ≡ max (digit a i) (digit b i)
unfolding or32
digit-or32 a b i h = digit-word_op max 32 a b i (λ x y. omega arith) h

pub digit-and32 : (a b i : ℕ) → i < 32 → digit (and32 a b) i ≡ min (digit a i) (digit b i)
unfolding and32
digit-and32 a b i h = digit-word_op min 32 a b i (λ x y. omega arith) h

pub digit-and_not32 : (a b i : ℕ) → i < 32 → digit (and_not32 a b) i ≡ digit a i - digit b i
unfolding and_not32
digit-and_not32 a b i h = digit-word_op (λ x y. x - y) 32 a b i (λ x y. omega arith) h

pub shift_one-power : (i : ℕ) → i < 32 → shift_one i ≡ power i
shift_one-power i h = omega (arith, power_mono i 32 h)

pub digit-shift_one : (i j : ℕ) → i < 32 → digit (shift_one i) j ≡ (if eqb i j then 1 else 0)
digit-shift_one i j h = rw (shift_one-power i h) (digit-power i j)

pub or32_lt : (a b : ℕ) → or32 a b < 4294967296
unfolding or32
or32_lt a b = word_op_lt max 32 a b (λ x y. omega arith)

pub and_not32_lt : (a b : ℕ) → and_not32 a b < 4294967296
unfolding and_not32
and_not32_lt a b = word_op_lt (λ x y. x - y) 32 a b (λ x y. omega arith)
