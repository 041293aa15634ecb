-- ===== src/Containers/Runs.antt =====
-- Concrete runs of the containers, and their theorems at concrete inputs.
use ppb.Prelude.{ℕ, ◌≡◌, refl, [], ◌∷◌, arith, ltb, nat_comparable, take}
use ppb.Containers.Slice.Remove.{remove}
use ppb.Containers.BoundedSort.{append_bounded_sort, append_bounded_sort-take, insert_sorted}

abbrev one : ℕ
one = 1

abbrev two : ℕ
two = 2

abbrev three : ℕ
three = 3

append_bounded_sort_full :
    append_bounded_sort ltb (1 ∷ 2 ∷ 3 ∷ 4 ∷ 5 ∷ []) 5 3 ≡ 1 ∷ 2 ∷ 3 ∷ 3 ∷ 4 ∷ []
unfolding append_bounded_sort
append_bounded_sort_full = refl

append_bounded_sort_free :
    append_bounded_sort ltb (1 ∷ 2 ∷ 3 ∷ 4 ∷ 5 ∷ []) 6 0 ≡ 0 ∷ 1 ∷ 2 ∷ 3 ∷ 4 ∷ 5 ∷ []
unfolding append_bounded_sort
append_bounded_sort_free = refl

append_bounded_sort-take_example :
    append_bounded_sort ltb (1 ∷ 4 ∷ []) 2 3 ≡ take 2 (insert_sorted ltb 3 (1 ∷ 4 ∷ []))
append_bounded_sort-take_example = append_bounded_sort-take ltb (1 ∷ 4 ∷ []) 2 3 (omega arith)

-- Asked to remove the first and the last of three values, it removes the second one too, and keeps the
-- last.
remove-two : remove (one ∷ two ∷ three ∷ []) (one ∷ three ∷ []) ≡ 3 ∷ []
unfolding remove
remove-two = refl

-- One value is removed as it should be.
remove-one : remove (one ∷ two ∷ three ∷ []) (two ∷ []) ≡ 1 ∷ 3 ∷ []
unfolding remove
remove-one = refl
