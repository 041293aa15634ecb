-- ===== src/Memoize/Runs.antt =====
-- Calls of a function on numbers that adds 5. The zero value of a number is 0.
use ppb.Prelude.{ℕ, ◌+◌, ◌≡◌, refl, [], ◌∷◌, nat_comparable}
use ppb.Memoize.{new_memo, memoize_comparable, answers, expected, answers-expected}

abbrev add_five : ℕ → ℕ
add_five n = n + 5

answers-expected_example :
    answers add_five (new_memo 0 0) (0 ∷ 3 ∷ 0 ∷ 3 ∷ [])
    ≡ expected add_five 0 0 (0 ∷ 3 ∷ 0 ∷ 3 ∷ [])
answers-expected_example = answers-expected add_five 0 0 (0 ∷ 3 ∷ 0 ∷ 3 ∷ [])

-- The first call is answered by 0, and the third one by 5.
zero_first : answers add_five (new_memo 0 0) (0 ∷ 3 ∷ 0 ∷ []) ≡ 0 ∷ 8 ∷ 5 ∷ []
unfolding answers memoize_comparable
zero_first = refl
