-- ===== src/ThreadPool/Joined.antt =====
-- What the workers run when a call of `Join` returns.
use ppb.Prelude.{ℕ, ◌≤◌, ◌<◌, ◌≡◌, ◌≢◌, arith, update, weigh-update, weigh-full}
use ppb.ThreadPool.{
  idle, running, barrier, waiting, entered, returned, Pool, Step, take, end_task, begin, send, sent,
  arrive, leave, done, Steps, here, next, new_pool,
}
use ppb.ThreadPool.Invariant.{Inv, Steps-Inv, reached-Inv, waits, waits-le, comes}

-- What holds from the state on where the task `first` was the next one to be taken, and the call `j` of
-- `Join` had not begun.
record Since (n first j : ℕ) (s : Pool) : Type 0 where
  later : first ≤ s.taken
  new_tasks :
      (w task : ℕ)
      → w < n
      → s.workers w ≡ running task
      → s.joins j ≢ entered
      → s.counters j ≡ 0
      → first ≤ task

module _ {n first j : ℕ} {s : Pool} (inv : Inv n s) (since : Since n first j s) where
  open inv use {due, still, fresh, over}
  open since use {later, new_tasks}

  -- The last one to come finds all the workers in the barrier.
  arrived :
      (i w : ℕ)
      → w < n
      → s.workers w ≡ barrier i
      → (v : ℕ) → v < n
      → s.counters i ≡ 1
      → waits i (update s.workers w (waiting i) v) ≡ 1
  arrived i w lt e v h c =
      weigh-full (waits i) (waits-le i) n (update s.workers w (waiting i)) v h
        (ground (arith, still i, weigh-update (waits i) n w (waiting i) s.workers lt))

  Step-tasks :
      {t : Pool}
      → Step n s t
      → (v task : ℕ) → v < n
      → t.workers v ≡ running task
      → t.joins j ≢ entered
      → t.counters j ≡ 0
      → first ≤ task
  Step-tasks (take w lt e) v task h q d c = ground (arith, new_tasks v task)
  Step-tasks (end_task w lt e) v task h q d c = ground (arith, new_tasks v task)
  Step-tasks (begin i e) v task h q d c = ground (arith, new_tasks v task)
  Step-tasks (send i w lt e e') v task h q d c = ground (arith, new_tasks v task)
  Step-tasks (sent i e) v task h q d c = ground (arith, new_tasks v task)
  Step-tasks (arrive i w lt e) v task h q d c = ground (
    arith,
    new_tasks v task,
    due j,
    weigh-update (comes j) n w idle s.workers lt,
    arrived i w lt e v h,
  )
  Step-tasks (leave i w lt e z) v task h q d c = ground (arith, new_tasks v task)
  Step-tasks (done i e z) v task h q d c = ground (arith, new_tasks v task)

  Step-later : {t : Pool} → Step n s t → first ≤ t.taken
  Step-later (take w lt e) = omega arith
  Step-later (end_task w lt e) = later
  Step-later (begin i e) = later
  Step-later (send i w lt e e') = later
  Step-later (sent i e) = later
  Step-later (arrive i w lt e) = later
  Step-later (leave i w lt e z) = later
  Step-later (done i e z) = later

  Step-Since : {t : Pool} → Step n s t → Since n first j t
  Step-Since step = record { later = Step-later step; new_tasks = Step-tasks step }

Steps-Since :
    {n first j : ℕ} {s t : Pool} → Inv n s → Since n first j s → Steps n s t → Since n first j t
Steps-Since inv since here = since
Steps-Since {n} inv since (next r step) =
    Step-Since (Steps-Inv n inv r) (Steps-Since inv since r) step

-- When a call of `Join` has returned, no worker runs a task that was taken before the call began.
pub join_waits :
    (n j : ℕ) {s t : Pool}
    → Steps n new_pool s
    → s.joins j ≡ entered
    → Steps n s t
    → t.joins j ≡ returned
    → (w task : ℕ) → w < n
    → t.workers w ≡ running task
    → s.taken ≤ task
join_waits n j {s} {t} r e r' d w task lt q = ground (arith, new_tasks w task, over j)
  where
    inv : Inv n s
    inv = reached-Inv n r

    since : Since n s.taken j s
    since = record { later = omega arith; new_tasks = λ w task lt q d. absurd (d e) }

    open (Steps-Since inv since r') use {new_tasks}
    open (Steps-Inv n inv r') use {over}
