-- ===== src/Containers/Slice.antt =====
-- The slice helpers of internal/base/Containers.go. A slice is a list. `IndexOf` returns an index
-- and a flag: the flag is `some` here, and no caller reads the index that stands beside false.
pub mod Remove
use ppb.Prelude.{
  ℕ, zero, suc, ◌+◌, ◌-◌, ◌≤◌, ◌<◌, ◌≡◌, refl, Bool, true, false, ◌&&◌, ◌||◌, not, Option, none,
  some, List, [], ◌∷◌, ◌++◌, arith, if◌then◌else◌, Comparable, ◌==◌, ==_iff, elem, take, drop,
  elem-append,
}
use mathlib.Core.Option

-- The flag of `IndexOf`.
abbrev pub is_found : Option ℕ → Bool
is_found none = false
is_found (some i) = true

found-map : (o : Option ℕ) → is_found (Option.map suc o) ≡ is_found o
found-map none = refl
found-map (some i) = refl

module _ {ℓ} {A : Type ℓ} where
  -- `IndexIf`: the first index whose value passes the test.
  unfoldable pub index_if : (A → Bool) → List A → Option ℕ
  index_if pred [] = none
  index_if pred (x ∷ xs) = if pred x then some 0 else Option.map suc (index_if pred xs)

  -- `InsertAt`: the values from `index` on move one place to the right.
  unfoldable pub insert_at : List A → ℕ → A → List A
  insert_at arr index value = take index arr ++ value ∷ drop index arr

  -- `Delete`: `append(src[:index], src[index+1:]...)`.
  unfoldable pub delete : List A → ℕ → List A
  delete src index = take index src ++ drop (suc index) src

  -- `RemoveUnless`: the values that pass the test, in their order.
  unfoldable pub remove_unless : (A → Bool) → List A → List A
  remove_unless pred [] = []
  remove_unless pred (x ∷ xs) =
      let rest = remove_unless pred xs in if pred x then x ∷ rest else rest

module _ {ℓ} {A : Type ℓ} ⦃e : Comparable A⦄ where
  -- `IndexOf`: the first index at which the value stands.
  unfoldable pub index_of : A → List A → Option ℕ
  index_of a [] = none
  index_of a (x ∷ xs) = if x == a then some 0 else Option.map suc (index_of a xs)

  -- `Contains`: every one of the values stands in the slice.
  unfoldable pub contains : List A → List A → Bool
  unfolding index_of
  contains arr [] = true
  contains arr (x ∷ values) = is_found (index_of x arr) && contains arr values

  -- `AppendUniq`: appends the values that are not there yet.
  unfoldable pub append_uniq : List A → List A → List A
  unfolding index_of
  append_uniq result [] = result
  append_uniq result (x ∷ elts) =
      append_uniq (if is_found (index_of x result) then result else result ++ x ∷ []) elts

  -- The values of the first slice that stand in the second one; the order is the first one's.
  unfoldable pub intersect_loop : List A → List A → List A
  unfolding index_of
  intersect_loop [] b = []
  intersect_loop (it ∷ a) b =
      let rest = intersect_loop a b in if is_found (index_of it b) then it ∷ rest else rest

  -- `IsUniq`: no two places hold the same value. The inner loop compares a value with all later.
  unfoldable pub is_uniq : List A → Bool
  is_uniq [] = true
  is_uniq (x ∷ arr) = not (elem x arr) && is_uniq arr

  pub index_of-elem : (a : A) (xs : List A) → is_found (index_of a xs) ≡ elem a xs
  unfolding index_of
  index_of-elem a [] = refl
  index_of-elem a (x ∷ xs) = ground (arith, index_of-elem a xs, found-map (index_of a xs))

  pub is_uniq-snoc :
      (xs : List A) (a : A) → is_uniq (xs ++ a ∷ []) ≡ (not (elem a xs) && is_uniq xs)
  unfolding is_uniq
  is_uniq-snoc [] a = refl
  is_uniq-snoc (x ∷ xs) a =
      ground (arith, is_uniq-snoc xs a, elem-append x xs (a ∷ []), ==_iff x a, ==_iff a x)

  pub contains-single : (arr : List A) (a : A) → contains arr (a ∷ []) ≡ elem a arr
  unfolding contains
  contains-single arr a = ground (arith, index_of-elem a arr)
