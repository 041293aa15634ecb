-- ===== src/Futures/Runs.antt =====
-- Runs of the functions on results of futures. Errors and values are numbers.
use ppb.Prelude.{◌≡◌, refl, ℕ, Option, none, some, List, [], ◌∷◌, eqb, if◌then◌else◌}
use ppb.Futures.{Got, value, failed, result, map_result, parallel_join, parallel_range}

-- An error on 3 only.
abbrev each : ℕ → ℕ → Option ℕ
each i v = if eqb v 3 then some 30 else none

abbrev some_failed : List (Got ℕ ℕ)
some_failed = value 1 ∷ failed 10 ∷ value 2 ∷ failed 20 ∷ []

abbrev fails : ℕ → Got ℕ ℕ
fails v = failed 7

join_run : parallel_join each 0 none some_failed ≡ ((0, 1) ∷ (2, 2) ∷ [], some 20)
unfolding parallel_join
join_run = refl

join_stops : parallel_join each 0 none (failed 10 ∷ value 3 ∷ value 1 ∷ []) ≡ ((1, 3) ∷ [], some 30)
unfolding parallel_join
join_stops = refl

range_stops : parallel_range (each 0) (1 ∷ 3 ∷ 2 ∷ []) ≡ (1 ∷ 3 ∷ [], some 30)
unfolding parallel_range
range_stops = refl

-- `Failure` returns no error, and `Get` does.
map_run : (map_result fails (result (value 1))).failure ≡ none
unfolding map_result result
map_run = refl
