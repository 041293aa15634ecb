-- ===== src/Prelude/Families.antt =====
-- Families that are indexed by numbers: an update at one index, and sums over the first `n`.
use Prim.Native.Nat.{ℕ, zero, suc, ◌+◌, ◌≤◌, ◌<◌}
use mathlib.Core.Path.{◌≡◌, refl}
use native.Mathlib.Decide.{dec_lt}
use native.Mathlib.Omega.{arith}
use ppb.Prelude.Tests.{eqb, ltb, if◌then◌else◌}

abbrev pub update : {A : Type 0} → (ℕ → A) → ℕ → A → ℕ → A
update f i a j = if eqb i j then a else f j

module _ {A : Type 0} (weight : A → ℕ) where
  -- The sum of the weights of `f 0`, ..., `f (n - 1)`.
  pub weigh : ℕ → (ℕ → A) → ℕ
  weigh zero f = 0
  weigh (suc last) f = weight (f last) + weigh last f

  -- The weight at `i`, if it is in the sum.
  share : ℕ → ℕ → A → ℕ
  share n i a = if ltb i n then weight a else 0

  update-share :
      (n i : ℕ) (a : A) (f : ℕ → A)
      → share n i (f i) + weigh n (update f i a) ≡ share n i a + weigh n f
  unfolding weigh share
  update-share zero i a f = ground arith
  update-share (suc last) i a f = ground (arith, update-share last i a f)

  pub weigh-update :
      (n i : ℕ) (a : A) (f : ℕ → A)
      → i < n
      → weight (f i) + weigh n (update f i a) ≡ weight a + weigh n f
  unfolding share
  weigh-update n i a f h = ground (arith, update-share n i a f)

  module _ (small : (a : A) → weight a ≤ 1) where
    pub weigh-le : (n : ℕ) (f : ℕ → A) → weigh n f ≤ n
    unfolding weigh
    weigh-le zero f = omega arith
    weigh-le (suc n) f = omega (arith, small (f n), weigh-le n f)

    -- All of the first `n` count if the sum is `n`.
    pub weigh-full : (n : ℕ) (f : ℕ → A) (i : ℕ) → i < n → weigh n f ≡ n → weight (f i) ≡ 1
    unfolding weigh
    weigh-full zero f i h e = absurd (omega arith)
    weigh-full (suc n) f i h e = elim (dec_lt i n) [
      | yes below ↦ ground (arith, small (f n), weigh-le n f, weigh-full n f i)
      | no last ↦ ground (arith, small (f n), weigh-le n f)
    ]

  pub none-weigh : (n : ℕ) (f : ℕ → A) → ((i : ℕ) → weight (f i) ≡ 0) → weigh n f ≡ 0
  unfolding weigh
  none-weigh zero f h = refl
  none-weigh (suc n) f h = omega (arith, none-weigh n f h, h n)

  pub weigh-some : (n : ℕ) (f : ℕ → A) → 0 < weigh n f → (i : ℕ) × (i < n) × (0 < weight (f i))
  unfolding weigh
  weigh-some zero f h = absurd (omega arith)
  weigh-some (suc n) f h = elim (dec_lt 0 (weigh n f)) [
    | yes below ↦ let (i, lt, e) = weigh-some n f below in (i, omega arith, e)
    | no last ↦ (n, omega arith, omega arith)
  ]

  pub weigh-free : (n : ℕ) (f : ℕ → A) → weigh n f < n → (i : ℕ) × (i < n) × (weight (f i) ≡ 0)
  unfolding weigh
  weigh-free zero f h = absurd (omega arith)
  weigh-free (suc n) f h = elim (dec_lt (weigh n f) n) [
    | yes below ↦ let (i, lt, e) = weigh-free n f below in (i, omega arith, e)
    | no last ↦ (n, omega arith, omega arith)
  ]
