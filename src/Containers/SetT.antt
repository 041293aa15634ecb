-- ===== src/Containers/SetT.antt =====
-- `SetT` of internal/base/Containers.go: a slice whose values are kept different.
use ppb.Prelude.{
  ◌≡◌, Bool, true, false, ◌||◌, not, Option, none, some, List, [], ◌∷◌, ◌++◌, arith, Comparable,
  ==_iff, elem, elem-append,
}
use ppb.Containers.Slice.{index_of, contains, delete, is_uniq, is_uniq-snoc, contains-single}

module _ {ℓ} {A : Type ℓ} ⦃e : Comparable A⦄ where
  -- `AppendUniq`: the new set, and whether it was modified.
  append_uniq_loop : List A → Bool → List A → List A × Bool
  unfolding contains
  append_uniq_loop set modified [] = (set, modified)
  append_uniq_loop set modified (x ∷ it) = elim (contains set (x ∷ [])) [
    | true ↦ append_uniq_loop set modified it
    | false ↦ append_uniq_loop (set ++ x ∷ []) true it
  ]

  unfoldable pub append_uniq : List A → List A → List A × Bool
  unfolding append_uniq_loop
  append_uniq set it = append_uniq_loop set false it

  -- `PrependUniq`: each new value goes to the front.
  prepend_uniq_loop : List A → Bool → List A → List A × Bool
  unfolding contains
  prepend_uniq_loop set modified [] = (set, modified)
  prepend_uniq_loop set modified (x ∷ it) = elim (contains set (x ∷ [])) [
    | true ↦ prepend_uniq_loop set modified it
    | false ↦ prepend_uniq_loop (x ∷ set) true it
  ]

  unfoldable pub prepend_uniq : List A → List A → List A × Bool
  unfolding prepend_uniq_loop
  prepend_uniq set it = prepend_uniq_loop set false it

  -- `Remove`: `none` is the panic when the value is not there.
  unfoldable pub remove : List A → A → Option (List A)
  unfolding index_of delete
  remove set x = elim (index_of x set) [ none ↦ none | some i ↦ some (delete set i) ]

  -- `RemoveAll`: the first place of each value is deleted, if there is one.
  unfoldable pub remove_all : List A → List A → List A
  unfolding index_of delete
  remove_all set [] = set
  remove_all set (x ∷ it) =
      remove_all (elim (index_of x set) [ none ↦ set | some i ↦ delete set i ]) it

  append_uniq_loop-elem :
      (set : List A) (modified : Bool) (it : List A) (a : A)
      → elem a (append_uniq_loop set modified it).0 ≡ (elem a set || elem a it)
  unfolding append_uniq_loop
  append_uniq_loop-elem set modified [] a = ground arith
  append_uniq_loop-elem set modified (x ∷ it) a = ground (
    arith,
    contains-single set x,
    elem-append a set (x ∷ []),
    ==_iff x a,
    append_uniq_loop-elem set modified it a,
    append_uniq_loop-elem (set ++ x ∷ []) true it a,
  )

  append_uniq_loop-is_uniq :
      (set : List A) (modified : Bool) (it : List A)
      → is_uniq set ≡ true
      → is_uniq (append_uniq_loop set modified it).0 ≡ true
  unfolding append_uniq_loop
  append_uniq_loop-is_uniq set modified [] u = u
  append_uniq_loop-is_uniq set modified (x ∷ it) u = ground (
    arith,
    contains-single set x,
    is_uniq-snoc set x,
    append_uniq_loop-is_uniq set modified it,
    append_uniq_loop-is_uniq (set ++ x ∷ []) true it,
  )

  append_uniq_loop-modified :
      (set : List A) (modified : Bool) (it : List A)
      → (append_uniq_loop set modified it).1 ≡ (modified || not (contains set it))
  unfolding append_uniq_loop contains
  append_uniq_loop-modified set modified [] = ground arith
  append_uniq_loop-modified set modified (x ∷ it) = ground (
    arith,
    append_uniq_loop-modified set modified it,
    append_uniq_loop-modified (set ++ x ∷ []) true it,
  )

  pub elem-append_uniq :
      (set it : List A) (a : A) → elem a (append_uniq set it).0 ≡ (elem a set || elem a it)
  unfolding append_uniq
  elem-append_uniq set it a = append_uniq_loop-elem set false it a

  -- `AppendUniq` on a set without duplicates: the result has none either, holds exactly the old
  -- values and the given ones, and the flag says whether some given value was missing.
  pub append_uniq_lem :
      (set it : List A)
      → is_uniq set ≡ true
      → (is_uniq (append_uniq set it).0 ≡ true)
        × ((a : A) → elem a (append_uniq set it).0 ≡ (elem a set || elem a it))
        × ((append_uniq set it).1 ≡ not (contains set it))
  unfolding append_uniq
  append_uniq_lem set it u = (
    append_uniq_loop-is_uniq set false it u,
    append_uniq_loop-elem set false it,
    append_uniq_loop-modified set false it,
  )
