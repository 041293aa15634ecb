-- ===== src/ThreadPool/Alone.antt =====
-- One call of `Join`, while no other has begun.
use ppb.Prelude.{
  ◌⊎◌, inl, inr, ℕ, zero, suc, ◌+◌, ◌*◌, ◌<◌, ◌≡◌, ◌≢◌, refl, arith, weigh, weigh-update,
  weigh-some, weigh-free,
}
use native.Mathlib.Decide.{dec_lt}
use ppb.ThreadPool.{
  Worker, idle, running, barrier, waiting, Joiner, entered, joining, returned, queueing, Pool, Step,
  end_task, send, sent, arrive, done, Steps, here, next, new_pool,
}
use ppb.ThreadPool.Invariant.{Inv, Step-Inv, reached-Inv, waits, comes}

-- What is left to do: for a worker, and for the call.
abbrev pub rest : Worker → ℕ
rest idle = 0
rest (running _) = 1
rest (barrier _) = 1
rest (waiting _) = 0

abbrev pub call_rest : Joiner → ℕ
call_rest entered = 0
call_rest (queueing left) = 2 * left + 2
call_rest joining = 1
call_rest returned = 0

abbrev measure : ℕ → ℕ → Pool → ℕ
measure n j s = call_rest (s.joins j) + weigh rest n s.workers

-- A step of the call `j`, or of the workers for it.
record Progress (n j : ℕ) (s : Pool) : Type 0 where
  after : Pool
  step : Step n s after
  alone : (i : ℕ) → i ≢ j → after.joins i ≡ entered
  begun : after.joins j ≢ entered
  less : measure n j after < measure n j s

module _ {n : ℕ} {s : Pool} (inv : Inv n s) (j : ℕ)
    (alone : (i : ℕ) → i ≢ j → s.joins i ≡ entered) where
  open inv use {due, still, fresh}

  -- A worker in a barrier is in that of the call `j`.
  barrier-at : (w i : ℕ) → w < n → s.workers w ≡ barrier i → i ≡ j
  barrier-at w i lt e =
      ground (arith, alone i, fresh i, due i, weigh-update (comes i) n w idle s.workers lt)

  waiting-at : (w i : ℕ) → w < n → s.workers w ≡ waiting i → i ≡ j
  waiting-at w i lt e =
      ground (arith, alone i, fresh i, weigh-update (waits i) n w idle s.workers lt)

  finishes :
      (w : ℕ) {task : ℕ} → w < n → s.workers w ≡ running task → s.joins j ≢ entered → Progress n j s
  finishes w lt e b = record {
    after = _;
    step = end_task w lt e;
    alone = alone;
    begun = b;
    less = ground (arith, weigh-update rest n w idle s.workers lt);
  }

  arrives : (i w : ℕ) → w < n → s.workers w ≡ barrier i → s.joins j ≢ entered → Progress n j s
  arrives i w lt e b = record {
    after = _;
    step = arrive i w lt e;
    alone = alone;
    begun = b;
    less = ground (arith, weigh-update rest n w (waiting i) s.workers lt);
  }

  sends :
      (w left : ℕ) → w < n → s.joins j ≡ queueing (suc left) → s.workers w ≡ idle → Progress n j s
  sends w left lt q e = record {
    after = _;
    step = send j w lt q e;
    alone = λ i d. ground (arith, alone i);
    begun = ground arith;
    less = ground (arith, weigh-update rest n w (barrier j) s.workers lt);
  }

  -- A worker that does not wait in the barrier, while some task of the call is not queued.
  from_worker :
      (w left : ℕ)
      → w < n
      → waits j (s.workers w) ≡ 0
      → s.joins j ≡ queueing (suc left)
      → (p : Worker) → s.workers w ≡ p
      → Progress n j s
  from_worker w left lt z q idle e = sends w left lt q e
  from_worker w left lt z q (running task) e = finishes w lt e (λ d. ground arith)
  from_worker w left lt z q (barrier i) e = arrives i w lt e (λ d. ground arith)
  from_worker w left lt z q (waiting i) e = absurd (ground (arith, waiting-at w i lt))

  from_comer :
      (w : ℕ)
      → w < n
      → 0 < comes j (s.workers w)
      → s.joins j ≡ joining
      → (p : Worker) → s.workers w ≡ p
      → Progress n j s
  from_comer w lt z q (barrier i) e = arrives i w lt e (λ d. ground arith)
  from_comer w lt z q p e = absurd (ground arith)

  progress : (p : Joiner) → s.joins j ≡ p → p ≢ entered → p ≢ returned → Progress n j s
  progress entered e d d' = absurd (d refl)
  progress returned e d d' = absurd (d' refl)
  progress (queueing zero) e d d' = record {
    after = _;
    step = sent j e;
    alone = λ i d. ground (arith, alone i);
    begun = ground arith;
    less = ground arith;
  }
  progress (queueing (suc left)) e d d' =
      let (w, lt, z) = weigh-free (waits j) n s.workers (ground (arith, due j, still j)) in
      from_worker w left lt z e (s.workers w) refl
  progress joining e d d' = elim (dec_lt 0 (s.counters j)) [
    | no over ↦ record {
      after = _;
      step = done j e (omega arith);
      alone = λ i d. ground (arith, alone i);
      begun = ground arith;
      less = ground arith;
    }
    | yes more ↦
        let (w, lt, z) = weigh-some (comes j) n s.workers (ground (arith, due j)) in
        from_comer w lt z e (s.workers w) refl
  ]

Joiner-cases : (p : Joiner) → (p ≡ returned) ⊎ (p ≢ returned)
Joiner-cases entered = inr (λ e. ground arith)
Joiner-cases joining = inr (λ e. ground arith)
Joiner-cases returned = inl refl
Joiner-cases (queueing left) = inr (λ e. ground arith)

Steps-then : {n : ℕ} {s t u : Pool} → Step n s t → Steps n t u → Steps n s u
Steps-then step here = next here step
Steps-then step (next r last) = next (Steps-then step r) last

-- `fuel` is at least what is left to do.
ends :
    (fuel n j : ℕ) {s : Pool}
    → Inv n s
    → ((i : ℕ) → i ≢ j → s.joins i ≡ entered)
    → s.joins j ≢ entered
    → measure n j s < fuel
    → (t : Pool) × Steps n s t × (t.joins j ≡ returned)
ends zero n j inv alone begun h = absurd (omega arith)
ends (suc fuel) n j {s} inv alone begun h = elim (Joiner-cases (s.joins j)) [
  | inl over ↦ (s, here, over)
  | inr open_still ↦
      let p = progress inv j alone (s.joins j) refl begun open_still in
      let (t, r, e) = ends fuel n j (Step-Inv inv p.step) p.alone p.begun (omega (arith, p.less)) in
      (t, Steps-then p.step r, e)
]

-- A call of `Join` can return from each state that the pool reaches while no other call has begun.
pub join_returns :
    (n j : ℕ) {s : Pool}
    → Steps n new_pool s
    → ((i : ℕ) → i ≢ j → s.joins i ≡ entered)
    → s.joins j ≢ entered
    → (t : Pool) × Steps n s t × (t.joins j ≡ returned)
join_returns n j {s} r alone begun =
    ends (suc (measure n j s)) n j (reached-Inv n r) alone begun (omega arith)
