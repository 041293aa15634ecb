-- ===== src/EnumSet/Bits.antt =====
-- The operations of an `EnumSet` by its members.
use ppb.Prelude.{
  ℕ, zero, suc, ◌+◌, ◌-◌, ◌*◌, ◌/◌, ◌%◌, ◌<◌, ◌≡◌, Bool, false, ◌&&◌, ◌||◌, not, List, [], ◌∷◌,
  arith, if◌then◌else◌, eqb, eqb_iff, ltb, leb, foldl, ap, ◌∙◌, inl, inr, Bool-cases,
}
use Prim.Native.Nat.{min, max}
use ppb.Words.{
  or32, and32, and_not32, shift_one, power, digit, digit_lt_two, digit-or32, digit-and32,
  digit-and_not32, digit-shift_one, digit-zero, power_mono, power_pos, shift_one-power, word_ext,
  word_op_lt,
}
use ppb.EnumSet.{
  EnumValue, has_bit, ones_below, new_enum_set, has, intersect, greater_than, greater_than_equal,
  less_than, less_than_equal, append, add, remove_all, remove,
}

and32_lt : (a b : ℕ) → and32 a b < 4294967296
unfolding and32
and32_lt a b = word_op_lt min 32 a b (λ x y. omega arith)

eqb_same : (a b c d : ℕ) → (a ≡ b → c ≡ d) → (c ≡ d → a ≡ b) → eqb a b ≡ eqb c d
eqb_same a b c d f g = elim (Bool-cases (eqb a b)) [
  | inl p ↦ let e : c ≡ d = f ((eqb_iff a b).0 p) in ground arith
  | inr p ↦ elim (Bool-cases (eqb c d)) [
    | inl q ↦ let e : a ≡ b = g ((eqb_iff c d).0 q) in ground arith
    | inr q ↦ ground arith
  ]
]

digit_shift_self : (i : ℕ) → i < 32 → digit (shift_one i) i ≡ 1
digit_shift_self i h = digit-shift_one i i h ∙ ground arith

has_bit_on : (x i : ℕ) → i < 32 → digit x i ≡ 1 → and32 x (shift_one i) ≡ shift_one i
has_bit_on x i h on =
    word_ext 32 (and32 x (shift_one i)) (shift_one i) (and32_lt x (shift_one i)) (omega arith)
      (λ j l. ground (arith, digit-and32 x (shift_one i) j, digit-shift_one i j, digit_lt_two x j))

has_bit_off : (x i : ℕ) → i < 32 → and32 x (shift_one i) ≡ shift_one i → digit x i ≡ 1
has_bit_off x i h e =
    let same = ap (λ (t : ℕ). digit t i) e in
    omega (arith, same, digit-and32 x (shift_one i) i h, digit_shift_self i h, digit_lt_two x i)

pub has_bit-digit : (x i : ℕ) → i < 32 → has_bit x i ≡ eqb (digit x i) 1
unfolding has_bit
has_bit-digit x i h =
    eqb_same (and32 x (shift_one i)) (shift_one i) (digit x i) 1 (has_bit_off x i h)
      (has_bit_on x i h)

digit_below : (n i : ℕ) → digit (power n - 1) i ≡ (if ltb i n then 1 else 0)
digit_below zero i = ground (arith, digit-zero i)
digit_below (suc n) zero = ground (arith, power_pos n)
digit_below (suc n) (suc i) =
    let half : (2 * power n - 1) / 2 ≡ power n - 1 = omega (arith, power_pos n) in
    rw half (ground (arith, digit_below n i))

-- `(1 << n) - 1` has the digits below `n`.
digit-ones_below : (n i : ℕ) → n < 33 → digit (ones_below n) i ≡ (if ltb i n then 1 else 0)
unfolding ones_below
digit-ones_below n i h = elim (Bool-cases (ltb n 32)) [
  | inl l ↦
      let p : power n < 4294967296 = power_mono n 32 (ground arith) in
      let e : (shift_one n + 4294967295) % 4294967296 ≡ power n - 1 =
        omega (arith, power_pos n, shift_one-power n (ground arith)) in
      rw e (digit_below n i)
  | inr l ↦ let e : n ≡ 32 = ground arith in rw e (digit_below 32 i)
]

above : (i p : ℕ) → not (ltb i (p + 1)) ≡ ltb p i
above i p = ground arith

not_below : (i p : ℕ) → not (ltb i p) ≡ leb p i
not_below i p = ground arith

up_to : (i p : ℕ) → ltb i (p + 1) ≡ leb i p
up_to i p = ground arith

-- The bits of the operations.
max_bit : (a b : ℕ) → a < 2 → b < 2 → eqb (max a b) 1 ≡ (eqb a 1 || eqb b 1)
max_bit a b h k = ground arith

min_bit : (a b : ℕ) → a < 2 → b < 2 → eqb (min a b) 1 ≡ (eqb a 1 && eqb b 1)
min_bit a b h k = ground arith

sub_bit : (a b : ℕ) → a < 2 → b < 2 → eqb (a - b) 1 ≡ (eqb a 1 && not (eqb b 1))
sub_bit a b h k = ground arith

has_bit-or32 : (x y i : ℕ) → i < 32 → has_bit (or32 x y) i ≡ (has_bit x i || has_bit y i)
has_bit-or32 x y i h =
    rw (has_bit-digit (or32 x y) i h, has_bit-digit x i h, has_bit-digit y i h, digit-or32 x y i h)
      (max_bit (digit x i) (digit y i) (digit_lt_two x i) (digit_lt_two y i))

has_bit-and32 : (x y i : ℕ) → i < 32 → has_bit (and32 x y) i ≡ (has_bit x i && has_bit y i)
has_bit-and32 x y i h =
    rw
      (has_bit-digit (and32 x y) i h, has_bit-digit x i h, has_bit-digit y i h, digit-and32 x y i h)
      (min_bit (digit x i) (digit y i) (digit_lt_two x i) (digit_lt_two y i))

has_bit-and_not32 :
    (x y i : ℕ) → i < 32 → has_bit (and_not32 x y) i ≡ (has_bit x i && not (has_bit y i))
has_bit-and_not32 x y i h =
    rw
      (
        has_bit-digit (and_not32 x y) i h,
        has_bit-digit x i h,
        has_bit-digit y i h,
        digit-and_not32 x y i h,
      )
      (sub_bit (digit x i) (digit y i) (digit_lt_two x i) (digit_lt_two y i))

has_bit-ones_below : (n i : ℕ) → n < 33 → i < 32 → has_bit (ones_below n) i ≡ ltb i n
has_bit-ones_below n i h l =
    rw (has_bit-digit (ones_below n) i l) (ground (arith, digit-ones_below n i h))

module _ {T : Type 0} (value : EnumValue T) where
  -- Whether a value of the list has the number.
  abbrev pub elem_ord : ℕ → List T → Bool
  elem_ord i [] = false
  elem_ord i (t ∷ list) = eqb (value.ord t) i || elem_ord i list

module _ {T : Type 0} (value : EnumValue T) (small : (t : T) → value.ord t < 32) where
  digit_fold :
      (r : ℕ) (list : List T) (i : ℕ)
      → i < 32
      → digit (foldl (λ result it. or32 result (shift_one (value.ord it))) r list) i
        ≡ (if eqb (digit r i) 1 || elem_ord value i list then 1 else 0)
  digit_fold r [] i h = ground (arith, digit_lt_two r i)
  digit_fold r (t ∷ list) i h = ground (
    arith,
    digit_fold (or32 r (shift_one (value.ord t))) list i,
    digit-or32 r (shift_one (value.ord t)) i,
    digit-shift_one (value.ord t) i (small t),
    digit_lt_two r i,
  )

  pub digit-new :
      (list : List T) (i : ℕ)
      → i < 32
      → digit (new_enum_set value list) i ≡ (if elem_ord value i list then 1 else 0)
  unfolding new_enum_set
  digit-new list i h = ground (arith, digit_fold 0 list i, digit-zero i)

  -- Each operation by its members: a value is in the set that a list makes, or that is left after
  -- adding, removing, intersecting or cutting at a pivot, exactly when the operation says so. The
  -- numbers of the values are below 32.
  pub has_lem :
      (x other : ℕ) (list : List T) (pivot it : T)
      → (has value (new_enum_set value list) it ≡ elem_ord value (value.ord it) list)
        × (has value (add value x list) it ≡ (has value x it || elem_ord value (value.ord it) list))
        × (has value (remove value x list) it
            ≡ (has value x it && not (elem_ord value (value.ord it) list)))
        × (has value (intersect value x other) it ≡ (has value x it && has value other it))
        × (has value (greater_than value x pivot) it
            ≡ (has value x it && ltb (value.ord pivot) (value.ord it)))
        × (has value (greater_than_equal value x pivot) it
            ≡ (has value x it && leb (value.ord pivot) (value.ord it)))
        × (has value (less_than value x pivot) it
            ≡ (has value x it && ltb (value.ord it) (value.ord pivot)))
        × (has value (less_than_equal value x pivot) it
            ≡ (has value x it && leb (value.ord it) (value.ord pivot)))
  unfolding has add append remove remove_all intersect greater_than greater_than_equal less_than
      less_than_equal
  has_lem x other list pivot it =
      let i = value.ord it in
      let p = value.ord pivot in
      let l = small it in
      let lp = small pivot in
      let made = new_enum_set value list in
      let holds : has_bit made i ≡ elem_ord value i list =
        has_bit-digit made i l ∙ ground (arith, digit-new list i) in
      (
        holds,
        rw (has_bit-or32 x made i l, holds),
        rw (has_bit-and_not32 x made i l, holds),
        has_bit-and32 x other i l,
        rw (
          has_bit-and_not32 x (ones_below (p + 1)) i l,
          has_bit-ones_below (p + 1) i (omega (arith, lp)) l,
          above i p,
        ),
        rw (
          has_bit-and_not32 x (ones_below p) i l,
          has_bit-ones_below p i (omega (arith, lp)) l,
          not_below i p,
        ),
        rw (has_bit-and32 x (ones_below p) i l, has_bit-ones_below p i (omega (arith, lp)) l),
        rw (
          has_bit-and32 x (ones_below (p + 1)) i l,
          has_bit-ones_below (p + 1) i (omega (arith, lp)) l,
          up_to i p,
        ),
      )
