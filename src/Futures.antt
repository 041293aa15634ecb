-- ===== src/Futures.antt =====
-- The results of futures, and the functions that join several of them: internal/base/Future.go. A
-- future is given by the result that `Join` waits for.
pub mod Joined
mod Runs
use ppb.Prelude.{ℕ, ◌+◌, Option, none, some, List, [], ◌∷◌}

-- What `Get` returns: the value, or an error.
pub data Got (E T : Type 0) : Type 0 where
  value : T → Got E T
  failed : E → Got E T

-- `Result`: what its three methods return. `none` of `success` is the panic on a failure.
pub record Result (E T : Type 0) : Type 0 where
  pub success : Option T
  pub failure : Option E
  pub get : Got E T

module _ {E T : Type 0} where
  abbrev pub success_of : Got E T → Option T
  success_of (value v) = some v
  success_of (failed e) = none

  abbrev pub failure_of : Got E T → Option E
  failure_of (value v) = none
  failure_of (failed e) = some e

  -- The methods of `result`
  unfoldable pub result : Got E T → Result E T
  result r = record { success = success_of r; failure = failure_of r; get = r }

module _ {E In Out : Type 0} where
  abbrev pub then_success : (In → Got E Out) → Option In → Option Out
  then_success transform none = none
  then_success transform (some v) = success_of (transform v)

  abbrev pub then_get : (In → Got E Out) → Got E In → Got E Out
  then_get transform (value v) = transform v
  then_get transform (failed e) = failed e

  -- The methods of `map_future_result`
  unfoldable pub map_result : (In → Got E Out) → Result E In → Result E Out
  map_result transform inner = record {
    success = then_success transform inner.success;
    failure = inner.failure;
    get = then_get transform inner.get;
  }

module _ {E T : Type 0} where
  abbrev pub called : ℕ × T → List (ℕ × T) × Option E → List (ℕ × T) × Option E
  called call (calls, error) = (call ∷ calls, error)

  -- `ParallelJoin_Sync`, which `ParallelJoin` is in both builds, from an index on, with the error at
  -- the end: the calls of `each` that are made, and the error that is returned.
  unfoldable pub parallel_join :
      (ℕ → T → Option E) → ℕ → Option E → List (Got E T) → List (ℕ × T) × Option E
  parallel_join each i last [] = ([], last)
  parallel_join each i last (failed e ∷ futures) = parallel_join each (i + 1) (some e) futures
  parallel_join each i last (value v ∷ futures) = elim (each i v) [
    | some e ↦ ((i, v) ∷ [], some e)
    | none ↦ called (i, v) (parallel_join each (i + 1) last futures)
  ]

  -- `ParallelRange_Sync`: the values that `each` is called on, and the error.
  unfoldable pub parallel_range : (T → Option E) → List T → List T × Option E
  parallel_range each [] = ([], none)
  parallel_range each (it ∷ in_) = elim (each it) [
    | some e ↦ (it ∷ [], some e)
    | none ↦ let rest = parallel_range each in_ in (it ∷ rest.0, rest.1)
  ]
