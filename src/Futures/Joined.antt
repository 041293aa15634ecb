-- ===== src/Futures/Joined.antt =====
-- The errors of joined futures, and of mapped ones.
use ppb.Prelude.{
  ℕ, ◌+◌, ◌≡◌, refl, ◌↔◌, Bool, true, false, ◌&&◌, Option, none, some, List, [], ◌∷◌, arith,
}
use ppb.Futures.{Got, value, failed, success_of, failure_of, result, map_result, parallel_join}

module _ {E T : Type 0} where
  abbrev pub is_failed : Got E T → Bool
  is_failed (value v) = false
  is_failed (failed e) = true

  no_failure : (r : Got E T) → (none ≡ failure_of r) ↔ (is_failed r ≡ false)
  no_failure (value v) = ground arith
  no_failure (failed e) = ground arith

abbrev pub or_else : {E : Type 0} → Option E → Option E → Option E
or_else none other = other
or_else (some e) other = some e

abbrev pub is_none : {E : Type 0} → Option E → Bool
is_none none = true
is_none (some e) = false

is_none_iff : {E : Type 0} (o : Option E) → (o ≡ none) ↔ (is_none o ≡ true)
is_none_iff none = ground arith
is_none_iff (some e) = ground arith

module _ {E In Out : Type 0} where
  -- Whether the transform fails on the value of a future.
  abbrev pub transform_fails : (In → Got E Out) → Got E In → Bool
  transform_fails transform (value v) = is_failed (transform v)
  transform_fails transform (failed e) = false

  -- Of a mapped future, `Success` returns the value that `Get` returns, and panics if `Get` returns an
  -- error. `Failure` returns the error that `Get` returns, or none as `Get` does, exactly when the
  -- transform does not fail on the value of the inner future.
  pub map_result_lem :
      (transform : In → Got E Out) (r : Got E In)
      → ((map_result transform (result r)).success
          ≡ success_of (map_result transform (result r)).get)
        × (((map_result transform (result r)).failure
              ≡ failure_of (map_result transform (result r)).get)
            ↔ (transform_fails transform r ≡ false))
  unfolding map_result result
  map_result_lem transform (value v) = (refl, no_failure (transform v))
  map_result_lem transform (failed e) = (refl, ground arith)

module _ {E T : Type 0} where
  -- The first error that `each` returns.
  abbrev pub first_error : (ℕ → T → Option E) → ℕ → List (Got E T) → Option E
  first_error each i [] = none
  first_error each i (failed e ∷ futures) = first_error each (i + 1) futures
  first_error each i (value v ∷ futures) = elim (each i v) [
    | some e ↦ some e
    | none ↦ first_error each (i + 1) futures
  ]

  -- The error of the last future that failed.
  abbrev pub last_failure : Option E → List (Got E T) → Option E
  last_failure last [] = last
  last_failure last (failed e ∷ futures) = last_failure (some e) futures
  last_failure last (value v ∷ futures) = last_failure last futures

  -- Whether all futures succeed, and `each` on all of their values.
  abbrev pub all_succeed : (ℕ → T → Option E) → ℕ → List (Got E T) → Bool
  all_succeed each i [] = true
  all_succeed each i (failed e ∷ futures) = false
  all_succeed each i (value v ∷ futures) = elim (each i v) [
    | some e ↦ false
    | none ↦ all_succeed each (i + 1) futures
  ]

  error-join :
      (each : ℕ → T → Option E) (i : ℕ) (last : Option E) (futures : List (Got E T))
      → (parallel_join each i last futures).1
        ≡ or_else (first_error each i futures) (last_failure last futures)
  unfolding parallel_join
  error-join each i last [] = refl
  error-join each i last (failed e ∷ futures) = error-join each (i + 1) (some e) futures
  error-join each i last (value v ∷ futures) = ground (arith, error-join each (i + 1) last futures)

  is_none-error :
      (each : ℕ → T → Option E) (i : ℕ) (last : Option E) (futures : List (Got E T))
      → is_none (or_else (first_error each i futures) (last_failure last futures))
        ≡ (is_none last && all_succeed each i futures)
  is_none-error each i last [] = ground arith
  is_none-error each i last (failed e ∷ futures) =
      ground (arith, is_none-error each (i + 1) (some e) futures)
  is_none-error each i last (value v ∷ futures) =
      ground (arith, is_none-error each (i + 1) last futures)

  -- `ParallelJoin_Sync` returns the first error of `each`, and without any that of the last future that
  -- failed. It returns none exactly when all futures succeed, and `each` on all of their values.
  pub parallel_join_lem :
      (each : ℕ → T → Option E) (futures : List (Got E T))
      → ((parallel_join each 0 none futures).1
          ≡ or_else (first_error each 0 futures) (last_failure none futures))
        × (((parallel_join each 0 none futures).1 ≡ none) ↔ (all_succeed each 0 futures ≡ true))
  parallel_join_lem each futures =
      let error = error-join each 0 none futures in
      (
        error,
        rw error (
            ground (
              arith,
              is_none_iff (or_else (first_error each 0 futures) (last_failure none futures)),
              is_none-error each 0 none futures,
            )),
      )
