-- ===== src/ThreadPool/Runs.antt =====
-- Runs of pools with one or two workers.
use ppb.Prelude.{ℕ, ◌≤◌, ◌≡◌, ◌≢◌, refl, arith, update}
use ppb.ThreadPool.{
  Worker, idle, running, barrier, waiting, entered, joining, returned, queueing, Pool, take,
  end_task, begin, send, sent, arrive, leave, done, Steps, here, next, new_pool,
}
use ppb.ThreadPool.Joined.{join_waits}
use ppb.ThreadPool.Alone.{join_returns}
use ppb.ThreadPool.Crossed.{crossed_joins}

-- The only worker runs a task.
abbrev busy : Pool
busy = record {
  workers = update (λ w. idle) 0 (running 0);
  workload = 1;
  taken = 1;
  joins = λ j. entered;
  counters = λ j. 0;
}

busy_reached : Steps 1 new_pool busy
busy_reached = next here (take 0 (omega arith) refl)

-- It ends the task, comes to the barrier of `Join`, leaves it, and takes another task.
abbrev joined_workers : ℕ → Worker
joined_workers =
    update
      (update
        (update (update (update (update (λ w. idle) 0 (running 0)) 0 idle) 0 (barrier 0)) 0
          (waiting 0))
        0 idle)
      0 (running 1)

abbrev joined : Pool
joined = record {
  workers = joined_workers;
  workload = 1;
  taken = 2;
  joins =
      update (update (update (update (λ j. entered) 0 (queueing 1)) 0 (queueing 0)) 0 joining) 0
        returned;
  counters = update (update (λ j. 0) 0 1) 0 0;
}

joined_reached : Steps 1 busy joined
joined_reached =
    next
      (next
        (next
          (next
            (next
              (next (next (next here (begin 0 refl)) (end_task 0 (omega arith) refl))
                (send 0 0 (omega arith) refl refl))
              (arrive 0 0 (omega arith) refl))
            (sent 0 refl))
          (leave 0 0 (omega arith) refl refl))
        (done 0 refl refl))
      (take 0 (omega arith) refl)

join_waits_example : busy.taken ≤ 1
join_waits_example = join_waits 1 0 busy_reached refl joined_reached refl 0 1 (omega arith) refl

-- Of two workers, each has come to the barrier of another call of `Join`.
abbrev crossed : Pool
crossed = record {
  workers =
      update (update (update (update (λ w. idle) 0 (barrier 0)) 1 (barrier 1)) 0 (waiting 0)) 1
        (waiting 1);
  workload = 2;
  taken = 0;
  joins =
      update (update (update (update (λ j. entered) 0 (queueing 2)) 1 (queueing 2)) 0 (queueing 1))
        1 (queueing 1);
  counters = update (update (update (update (λ j. 0) 0 2) 1 2) 0 1) 1 1;
}

crossed_reached : Steps 2 new_pool crossed
crossed_reached =
    next
      (next
        (next
          (next (next (next here (begin 0 refl)) (begin 1 refl)) (send 0 0 (omega arith) refl refl))
          (send 1 1 (omega arith) refl refl))
        (arrive 0 0 (omega arith) refl))
      (arrive 1 1 (omega arith) refl)

crossed_joins_example : (crossed.joins 0 ≢ returned) × (crossed.joins 1 ≢ returned)
crossed_joins_example =
    crossed_joins {i = 0} {a = 0} {j = 1} {b = 1} (omega arith) (omega arith) (λ e. ground arith)
      crossed_reached refl (λ e. ground arith) refl (λ e. ground arith) here

-- A call has begun, and both workers run a task.
abbrev loaded : Pool
loaded = record {
  workers = update (update (λ w. idle) 0 (running 0)) 1 (running 1);
  workload = 2;
  taken = 2;
  joins = update (λ j. entered) 0 (queueing 2);
  counters = update (λ j. 0) 0 2;
}

loaded_reached : Steps 2 new_pool loaded
loaded_reached =
    next (next (next here (take 0 (omega arith) refl)) (take 1 (omega arith) refl)) (begin 0 refl)

join_returns_example : (t : Pool) × Steps 2 loaded t × (t.joins 0 ≡ returned)
join_returns_example = join_returns 2 0 loaded_reached (λ i d. ground arith) (λ e. ground arith)
