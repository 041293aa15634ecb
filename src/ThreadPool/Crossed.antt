-- ===== src/ThreadPool/Crossed.antt =====
-- Two calls of `Join` at the same time.
use ppb.Prelude.{sym, ℕ, ◌<◌, ◌≡◌, ◌≢◌, arith, update, weigh-update, weigh-full}
use ppb.ThreadPool.{
  barrier, waiting, returned, Pool, Step, take, end_task, begin, send, sent, arrive, leave, done,
  Steps, here, next, new_pool,
}
use ppb.ThreadPool.Invariant.{Inv, Steps-Inv, reached-Inv, waits, waits-le}

-- The worker `a` waits for the call `i`, which still counts.
record Held (s : Pool) (i a : ℕ) : Type 0 where
  at : s.workers a ≡ waiting i
  counts : s.counters i ≢ 0

module _ {n : ℕ} {s : Pool} (inv : Inv n s) {i j b : ℕ} (below : b < n) (apart : i ≢ j) where
  -- The last worker to come would find `b` in the barrier of the call `i`.
  not_last : (w : ℕ) → w < n → s.workers w ≡ barrier i → s.workers b ≡ waiting j → s.counters i ≢ 1
  not_last w lt e q c = ground (
    arith,
    weigh-full (waits i) (waits-le i) n (update s.workers w (waiting i)) b below
        (ground (arith, inv.still i, weigh-update (waits i) n w (waiting i) s.workers lt)),
  )

module _ {n : ℕ} {s : Pool} (inv : Inv n s) {i a j b : ℕ} (below : b < n) (apart : i ≢ j) where
  open inv use {fresh}

  Step-at : {t : Pool} → Held s i a → Step n s t → t.workers a ≡ waiting i
  Step-at x (take w lt e) = ground arith
  Step-at x (end_task w lt e) = ground arith
  Step-at x (begin k e) = x.at
  Step-at x (send k w lt q e) = ground arith
  Step-at x (sent k e) = x.at
  Step-at x (arrive k w lt e) = ground arith
  Step-at x (leave k w lt e z) = ground arith
  Step-at x (done k e z) = x.at

  Step-counts : {t : Pool} → Held s i a → s.workers b ≡ waiting j → Step n s t → t.counters i ≢ 0
  Step-counts x q (take w lt e) = x.counts
  Step-counts x q (end_task w lt e) = x.counts
  Step-counts x q (begin k e) = λ z. ground (arith, fresh i)
  Step-counts x q (send k w lt e' e) = x.counts
  Step-counts x q (sent k e) = x.counts
  Step-counts x q (arrive k w lt e) = λ z. ground (arith, not_last inv below apart w lt)
  Step-counts x q (leave k w lt e z) = x.counts
  Step-counts x q (done k e z) = x.counts

  -- While `b` waits for another call, the call `i` does not come to its end.
  Step-Held : {t : Pool} → Held s i a → s.workers b ≡ waiting j → Step n s t → Held t i a
  Step-Held x q step = record { at = Step-at x step; counts = Step-counts x q step }

module _ {n i a j b : ℕ} (a_below : a < n) (b_below : b < n) (apart : i ≢ j) where
  Steps-Held :
      {s t : Pool} → Inv n s → Held s i a → Held s j b → Steps n s t → Held t i a × Held t j b
  Steps-Held inv x y here = (x, y)
  Steps-Held inv x y (next r step) =
      let (x', y') = Steps-Held inv x y r in
      let inv' = Steps-Inv n inv r in
      (
        Step-Held inv' b_below apart x' y'.at step,
        Step-Held inv' a_below (λ e. apart (sym e)) y' x'.at step,
      )

  -- When of two calls of `Join` each has a worker that waits in its barrier, and neither counter is
  -- at 0, then none of the two ever returns.
  pub crossed_joins :
      {s t : Pool}
      → Steps n new_pool s
      → s.workers a ≡ waiting i
      → s.counters i ≢ 0
      → s.workers b ≡ waiting j
      → s.counters j ≢ 0
      → Steps n s t
      → (t.joins i ≢ returned) × (t.joins j ≢ returned)
  crossed_joins {s} {t} r at_a ci at_b cj r' =
      let inv = reached-Inv n r in
      let (x, y) =
        Steps-Held inv (record { at = at_a; counts = ci }) (record { at = at_b; counts = cj }) r' in
      let over = (Steps-Inv n inv r').over in (λ e. x.counts (over i e), λ e. y.counts (over j e))
