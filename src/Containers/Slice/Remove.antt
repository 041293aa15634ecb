-- ===== src/Containers/Slice/Remove.antt =====
-- `Remove` of internal/base/Containers.go. The loop writes into the slice that it ranges over: the
-- last place that is still kept moves into the place of the removed value, and is not tested again.
use ppb.Prelude.{
  ℕ, zero, suc, ◌-◌, ◌≡◌, true, false, List, [], ◌∷◌, arith, eqb, Comparable, ◌==◌, ==_iff, ==-refl,
  length, get_or, get_elem?, set, take, none, some,
}
use ppb.Containers.Slice.{index_of, is_found}

module _ {ℓ} {A : Type ℓ} ⦃e : Comparable A⦄ where
  -- One round: `index` is the loop's index, `deleteds` is `numDeleteds`. The place that is read,
  -- `len(result)-1-numDeleteds`, is in range, so the default of `get_or` is not seen.
  remove_at : ℕ → ℕ → A → List A → List A
  remove_at index deleteds it result =
      set result index (get_or result (length result - 1 - deleteds) it)

  -- The rounds that are left, in the slice `result`, with its place `index` to test next.
  unfoldable pub remove_loop : ℕ → ℕ → ℕ → List A → List A → List A × ℕ
  unfolding index_of remove_at
  remove_loop zero index deleteds elts result = (result, deleteds)
  remove_loop (suc rounds) index deleteds elts result = elim (get_elem? result index) [
    | none ↦ (result, deleteds)
    | some it ↦ elim (is_found (index_of it elts)) [
      | false ↦ remove_loop rounds (suc index) deleteds elts result
      | true ↦
          let moved = remove_at index deleteds it result in
          elim (eqb (suc deleteds) (length elts)) [
            | true ↦ (moved, suc deleteds)
            | false ↦ remove_loop rounds (suc index) (suc deleteds) elts moved
          ]
    ]
  ]

  unfoldable pub remove : List A → List A → List A
  unfolding remove_loop
  remove src elts =
      let (result, deleteds) = remove_loop (length src) 0 0 elts src in
      take (length result - deleteds) result

  -- Of three values that differ, asked to remove the first and the last, it removes the second one
  -- too, and keeps the last.
  pub remove_drops_other :
      (a b c : A)
      → (a == b) ≡ false
      → (a == c) ≡ false
      → (b == c) ≡ false
      → remove (a ∷ b ∷ c ∷ []) (a ∷ c ∷ []) ≡ c ∷ []
  unfolding remove
  remove_drops_other a b c ab ac bc = ground (
    arith,
    ==_iff a c,
    ==_iff c a,
    ==_iff a b,
    ==_iff b a,
    ==_iff b c,
    ==_iff c b,
    ==-refl a,
    ==-refl c,
  )
