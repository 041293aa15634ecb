-- ===== src/BuildStats.antt =====
-- `BuildStats` of utils/BuildStats.go: the timers of a node. A time is a number of nanoseconds, and the
-- time that the clock shows is an argument of each operation that reads it.
mod Runs
use ppb.Prelude.{
  ℕ, ◌+◌, ◌-◌, ◌%◌, ◌^◌, ◌≤◌, ◌≡◌, refl, Bool, true, ◌&&◌, List, [], ◌∷◌, eqb, leb, if◌then◌else◌,
  arith,
}

-- `count` is an `int32`, by its bits.
pub record BuildStats : Type 0 where
  pub inclusive_start : ℕ
  pub exclusive_start : ℕ
  pub inclusive : ℕ
  pub exclusive : ℕ
  pub count : ℕ

abbrev pub no_stats : BuildStats
no_stats = record {
  inclusive_start = 0;
  exclusive_start = 0;
  inclusive = 0;
  exclusive = 0;
  count = 0;
}

unfoldable pub start_timer : ℕ → BuildStats → BuildStats
start_timer now x = record x {
  count = (x.count + 1) % 2 ^ 32;
  inclusive_start = now;
  exclusive_start = now;
}

unfoldable pub stop_timer : ℕ → BuildStats → BuildStats
stop_timer now x = record x {
  inclusive = x.inclusive + (now - x.inclusive_start);
  exclusive = x.exclusive + (now - x.exclusive_start);
}

unfoldable pub pause_timer : ℕ → BuildStats → BuildStats
pause_timer now x = record x { exclusive = x.exclusive + (now - x.exclusive_start) }

unfoldable pub resume_timer : ℕ → BuildStats → BuildStats
resume_timer now x = record x { exclusive_start = now }

-- `StartBuildStats`
unfoldable pub start_build_stats : ℕ → BuildStats
unfolding start_timer
start_build_stats now = start_timer now no_stats

-- `add`; `atomic_add` does the same, one field after another.
unfoldable pub add : BuildStats → BuildStats → BuildStats
add x other =
    let first = eqb x.count 0 in
    record {
      inclusive_start = if first then other.inclusive_start else x.inclusive_start;
      exclusive_start = if first then other.exclusive_start else x.exclusive_start;
      inclusive = x.inclusive + other.inclusive;
      exclusive = x.exclusive + other.exclusive;
      count = (x.count + other.count) % 2 ^ 32;
    }

-- Pauses, each from a time to a time, as `Execute` makes them.
unfoldable pub pauses : List (ℕ × ℕ) → BuildStats → BuildStats
unfolding pause_timer resume_timer
pauses [] x = x
pauses ((from, to) ∷ rest) x = pauses rest (resume_timer to (pause_timer from x))

-- The times are in order, from `start` on to `end`.
abbrev pub in_order : (start : ℕ) → List (ℕ × ℕ) → (end : ℕ) → Bool
in_order start [] end = leb start end
in_order start ((from, to) ∷ rest) end = leb start from && leb from to && in_order to rest end

-- How long all of the pauses are.
abbrev pub paused : List (ℕ × ℕ) → ℕ
paused [] = 0
paused ((from, to) ∷ rest) = (to - from) + paused rest

pauses_lem :
    (x : BuildStats) (rest : List (ℕ × ℕ)) (end : ℕ)
    → in_order x.exclusive_start rest end ≡ true
    → ((stop_timer end (pauses rest x)).inclusive ≡ x.inclusive + (end - x.inclusive_start))
      × ((stop_timer end (pauses rest x)).exclusive + paused rest
          ≡ x.exclusive + (end - x.exclusive_start))
      × (x.exclusive_start + paused rest ≤ end)
unfolding pauses stop_timer pause_timer resume_timer
pauses_lem x [] end h = (refl, ground arith, ground arith)
pauses_lem x ((from, to) ∷ rest) end h =
    let (incl, excl, fits) =
      pauses_lem (resume_timer to (pause_timer from x)) rest end (ground arith) in
    (incl, ground (arith, excl, fits), ground (arith, fits))

-- When the clock does not go back: from a start, over any pauses, to a stop, the inclusive duration is
-- the time from the start to the stop, and the exclusive one is that time without the pauses.
pub stop_timer_lem :
    (start : ℕ) (rest : List (ℕ × ℕ)) (end : ℕ)
    → in_order start rest end ≡ true
    → ((stop_timer end (pauses rest (start_build_stats start))).inclusive ≡ end - start)
      × ((stop_timer end (pauses rest (start_build_stats start))).exclusive
          ≡ end - start - paused rest)
unfolding start_build_stats start_timer
stop_timer_lem start rest end h =
    let (incl, excl, fits) = pauses_lem (start_build_stats start) rest end h in
    (omega (arith, incl), omega (arith, excl, fits))
