-- ===== src/Prelude/Members.antt =====
-- Predicates on lists by recursion, and membership as a Boolean.
use Prim.Native.Nat.{ℕ, suc}
use mathlib.Core.Path.{◌≡◌, refl}
use mathlib.Core.Bool.{Bool, true, false, ◌||◌}
use mathlib.Core.List.{List, [], ◌∷◌, ◌++◌}
use native.Mathlib.Omega.{arith}
use ppb.Prelude.Comparing.{Comparable, ◌==◌, ==_iff}

module _ {ℓ} {A : Type ℓ} ⦃e : Comparable A⦄ where
  -- Whether `a` stands in the list.
  abbrev pub elem : A → List A → Bool
  elem a [] = false
  elem a (x ∷ xs) = (x == a) || elem a xs

  -- How often `a` stands in the list.
  abbrev pub count : A → List A → ℕ
  count a [] = 0
  count a (x ∷ xs) = elim (x == a) [ true ↦ suc (count a xs) | false ↦ count a xs ]

module _ {ℓ} {A : Type ℓ} ⦃e : Comparable A⦄ where
  pub elem-append : (a : A) (xs ys : List A) → elem a (xs ++ ys) ≡ (elem a xs || elem a ys)
  elem-append a [] ys = refl
  elem-append a (x ∷ xs) ys = ground (arith, elem-append a xs ys)

  pub elem-ne : (a b : A) (xs : List A) → elem a xs ≡ true → elem b xs ≡ false → (a == b) ≡ false
  elem-ne a b [] p q = cc
  elem-ne a b (x ∷ xs) p q = ground (arith, ==_iff a b, ==_iff x a, ==_iff x b, elem-ne a b xs)
