-- ===== src/Prelude/Comparing.antt =====
-- Go's constraint `comparable`: a type whose values have a Boolean `==`.
use Prim.Native.Nat.{ℕ}
use mathlib.Core.Path.{◌≡◌, refl}
use mathlib.Core.Logic.{◌↔◌}
use mathlib.Core.Bool.{Bool, true, false, ◌&&◌}
use mathlib.Core.List.{List, [], ◌∷◌}
use native.Mathlib.Omega.{arith}
use ppb.Prelude.Tests.{eqb, ltb, eqb_iff}

-- A Go string, by its bytes.
abbrev pub Bytes : Type 0
Bytes = List ℕ

abbrev pub is_ascii : Bytes → Bool
is_ascii [] = true
is_ascii (c ∷ s) = ltb c 128 && is_ascii s

pub record Comparable {ℓ} (A : Type ℓ) : Type ℓ where
  pub same : A → A → Bool
  pub same_iff : (x y : A) → (same x y ≡ true) ↔ (x ≡ y)

infix 50 ◌==◌
abbrev pub ◌==◌ {ℓ} : {A : Type ℓ} ⦃e : Comparable A⦄ → A → A → Bool
◌==◌ ⦃e⦄ = e.same

instance abbrev pub nat_comparable : Comparable ℕ
nat_comparable = record { same = eqb; same_iff = eqb_iff }

module _ {ℓ} {A : Type ℓ} ⦃e : Comparable A⦄ where
  pub ==_iff : (a b : A) → ((a == b) ≡ true) ↔ (a ≡ b)
  ==_iff = e.same_iff

  pub ==-refl : (a : A) → (a == a) ≡ true
  ==-refl a = (e.same_iff a a).1 refl

  pub ==-sym : (a b : A) → (a == b) ≡ (b == a)
  ==-sym a b = ground (arith, e.same_iff a b, e.same_iff b a)

module _ {ℓ} {A : Type ℓ} ⦃e : Comparable A⦄ where
  abbrev pub list_equals : List A → List A → Bool
  list_equals [] [] = true
  list_equals [] (y ∷ ys) = false
  list_equals (x ∷ xs) [] = false
  list_equals (x ∷ xs) (y ∷ ys) = x == y && list_equals xs ys

  pub list_equals_iff : (xs ys : List A) → (list_equals xs ys ≡ true) ↔ (xs ≡ ys)
  list_equals_iff [] [] = ground arith
  list_equals_iff [] (y ∷ ys) = ground arith
  list_equals_iff (x ∷ xs) [] = ground arith
  list_equals_iff (x ∷ xs) (y ∷ ys) = ground (arith, e.same_iff x y, list_equals_iff xs ys)

  instance abbrev pub list_comparable : Comparable (List A)
  list_comparable = record { same = list_equals; same_iff = list_equals_iff }
