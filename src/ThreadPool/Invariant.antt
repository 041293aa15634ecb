-- ===== src/ThreadPool/Invariant.antt =====
-- What holds of a pool in each state that it can reach.
use ppb.Prelude.{
  sym, none-weigh, ℕ, ◌+◌, ◌≤◌, ◌≡◌, ◌≢◌, refl, eqb, if◌then◌else◌, arith, weigh, weigh-update,
}
use ppb.ThreadPool.{
  Worker, idle, running, barrier, waiting, Joiner, entered, returned, queueing, Pool, Step, take,
  end_task, begin, send, sent, arrive, leave, done, Steps, here, next, new_pool,
}

-- 1 if the worker waits for the call `j`.
abbrev pub waits : ℕ → Worker → ℕ
waits j (waiting i) = if eqb i j then 1 else 0
waits j _ = 0

pub waits-le : (j : ℕ) (w : Worker) → waits j w ≤ 1
waits-le j w = ground arith

-- 1 if it has the task of the call `j`, before `wg.Done`.
abbrev pub comes : ℕ → Worker → ℕ
comes j (barrier i) = if eqb i j then 1 else 0
comes j _ = 0

abbrev pub works : Worker → ℕ
works idle = 0
works _ = 1

abbrev pub unsent : Joiner → ℕ
unsent (queueing left) = left
unsent _ = 0

pub record Inv (n : ℕ) (s : Pool) : Type 0 where
  pub load : s.workload ≡ weigh works n s.workers
  pub due : (j : ℕ) → unsent (s.joins j) + weigh (comes j) n s.workers ≡ s.counters j
  pub still : (j : ℕ) → s.counters j ≢ 0 → weigh (waits j) n s.workers + s.counters j ≡ n
  pub fresh : (j : ℕ) → s.joins j ≡ entered → (s.counters j ≡ 0) × (weigh (waits j) n s.workers ≡ 0)
  pub over : (j : ℕ) → s.joins j ≡ returned → s.counters j ≡ 0

module _ {n : ℕ} {s : Pool} (inv : Inv n s) where
  open inv use {load, due, still, fresh, over}

  Step-load : {t : Pool} → Step n s t → t.workload ≡ weigh works n t.workers
  Step-load (take w lt e) = ground (arith, weigh-update works n w (running s.taken) s.workers lt)
  Step-load (end_task w lt e) = ground (arith, weigh-update works n w idle s.workers lt)
  Step-load (begin j e) = load
  Step-load (send j w lt q e) = ground (arith, weigh-update works n w (barrier j) s.workers lt)
  Step-load (sent j e) = load
  Step-load (arrive j w lt e) = ground (arith, weigh-update works n w (waiting j) s.workers lt)
  Step-load (leave j w lt e z) = ground (arith, weigh-update works n w idle s.workers lt)
  Step-load (done j e z) = load

  Step-due :
      {t : Pool}
      → Step n s t
      → (j : ℕ) → unsent (t.joins j) + weigh (comes j) n t.workers ≡ t.counters j
  Step-due (take w lt e) j =
      ground (arith, due j, weigh-update (comes j) n w (running s.taken) s.workers lt)
  Step-due (end_task w lt e) j = ground (arith, due j, weigh-update (comes j) n w idle s.workers lt)
  Step-due (begin i e) j = ground (arith, due j, fresh j)
  Step-due (send i w lt q e) j =
      ground (arith, due j, weigh-update (comes j) n w (barrier i) s.workers lt)
  Step-due (sent i e) j = ground (arith, due j)
  Step-due (arrive i w lt e) j =
      ground (arith, due j, weigh-update (comes j) n w (waiting i) s.workers lt)
  Step-due (leave i w lt e z) j =
      ground (arith, due j, weigh-update (comes j) n w idle s.workers lt)
  Step-due (done i e z) j = ground (arith, due j)

  Step-still :
      {t : Pool}
      → Step n s t
      → (j : ℕ) → t.counters j ≢ 0
      → weigh (waits j) n t.workers + t.counters j ≡ n
  Step-still (take w lt e) j h =
      ground (arith, still j, weigh-update (waits j) n w (running s.taken) s.workers lt)
  Step-still (end_task w lt e) j h =
      ground (arith, still j, weigh-update (waits j) n w idle s.workers lt)
  Step-still (begin i e) j h = ground (arith, still j, fresh j)
  Step-still (send i w lt q e) j h =
      ground (arith, still j, weigh-update (waits j) n w (barrier i) s.workers lt)
  Step-still (sent i e) j h = still j h
  Step-still (arrive i w lt e) j h =
      ground (arith, still j, weigh-update (waits j) n w (waiting i) s.workers lt)
  Step-still (leave i w lt e z) j h =
      ground (arith, still j, weigh-update (waits j) n w idle s.workers lt)
  Step-still (done i e z) j h = still j h

  Step-fresh :
      {t : Pool}
      → Step n s t
      → (j : ℕ) → t.joins j ≡ entered
      → (t.counters j ≡ 0) × (weigh (waits j) n t.workers ≡ 0)
  Step-fresh (take w lt e) j h =
      ground (arith, fresh j, weigh-update (waits j) n w (running s.taken) s.workers lt)
  Step-fresh (end_task w lt e) j h =
      ground (arith, fresh j, weigh-update (waits j) n w idle s.workers lt)
  Step-fresh (begin i e) j h = ground (arith, fresh j)
  Step-fresh (send i w lt q e) j h =
      ground (arith, fresh j, weigh-update (waits j) n w (barrier i) s.workers lt)
  Step-fresh (sent i e) j h = ground (arith, fresh j)
  Step-fresh (arrive i w lt e) j h = ground (
    arith,
    fresh j,
    due j,
    weigh-update (comes j) n w idle s.workers lt,
    weigh-update (waits j) n w (waiting i) s.workers lt,
  )
  Step-fresh (leave i w lt e z) j h =
      ground (arith, fresh j, weigh-update (waits j) n w idle s.workers lt)
  Step-fresh (done i e z) j h = ground (arith, fresh j)

  Step-over : {t : Pool} → Step n s t → (j : ℕ) → t.joins j ≡ returned → t.counters j ≡ 0
  Step-over (take w lt e) j h = over j h
  Step-over (end_task w lt e) j h = over j h
  Step-over (begin i e) j h = ground (arith, over j)
  Step-over (send i w lt q e) j h = ground (arith, over j)
  Step-over (sent i e) j h = ground (arith, over j)
  Step-over (arrive i w lt e) j h = ground (arith, over j)
  Step-over (leave i w lt e z) j h = over j h
  Step-over (done i e z) j h = ground (arith, over j)

  pub Step-Inv : {t : Pool} → Step n s t → Inv n t
  Step-Inv step = record {
    load = Step-load step;
    due = Step-due step;
    still = Step-still step;
    fresh = Step-fresh step;
    over = Step-over step;
  }

pub Steps-Inv : (n : ℕ) {s t : Pool} → Inv n s → Steps n s t → Inv n t
Steps-Inv n inv here = inv
Steps-Inv n inv (next r step) = Step-Inv (Steps-Inv n inv r) step

new_pool-Inv : (n : ℕ) → Inv n new_pool
new_pool-Inv n = record {
  load = sym (none_in works refl);
  due = λ j. omega (arith, none_in (comes j) refl);
  still = λ j h. absurd (h refl);
  fresh = λ j e. (refl, none_in (waits j) refl);
  over = λ j e. refl;
}
  where
    none_in : (weight : Worker → ℕ) → weight idle ≡ 0 → weigh weight n (λ w. idle) ≡ 0
    none_in weight e = none-weigh weight n (λ w. idle) (λ w. e)

pub reached-Inv : (n : ℕ) {s : Pool} → Steps n new_pool s → Inv n s
reached-Inv n r = Steps-Inv n (new_pool-Inv n) r

-- The workload is the number of workers that have a task, those in the barrier of a `Join` included.
pub workload_lem : (n : ℕ) {s : Pool} → Steps n new_pool s → s.workload ≡ weigh works n s.workers
workload_lem n r = (reached-Inv n r).load
