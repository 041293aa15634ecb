-- ===== src/ThreadPool.antt =====
-- The pool of internal/base/ThreadPool.go: its workers, the tasks that they take, and the calls of
-- `Join`. A channel has no buffer, so that a task is queued and taken in one step, by an idle worker.
pub mod Invariant
pub mod Joined
pub mod Crossed
pub mod Alone
mod Runs
use ppb.Prelude.{ℕ, zero, suc, ◌+◌, ◌-◌, ◌<◌, ◌≡◌, update}

-- A worker runs a task, or the task of the call `j` of `Join`, before or after its `wg.Done`.
pub data Worker : Type 0 where
  idle : Worker
  running : (task : ℕ) → Worker
  barrier waiting : (j : ℕ) → Worker

-- A call of `Join`: `left` of its tasks are not queued yet.
pub data Joiner : Type 0 where
  entered joining returned : Joiner
  queueing : (left : ℕ) → Joiner

-- Tasks are numbered as they are taken. `counters` are the wait groups of the calls of `Join`.
pub record Pool : Type 0 where
  pub workers : ℕ → Worker
  pub workload : ℕ
  pub taken : ℕ
  pub joins : ℕ → Joiner
  pub counters : ℕ → ℕ

-- One step of a pool of `n` workers.
pub data Step (n : ℕ) (s : Pool) : Pool → Type 0 where
  take :
      (w : ℕ)
      → w < n
      → s.workers w ≡ idle
      → Step n s (record s {
        workers = update s.workers w (running s.taken);
        workload = s.workload + 1;
        taken = suc s.taken;
      })
  end_task :
      (w : ℕ) {task : ℕ}
      → w < n
      → s.workers w ≡ running task
      → Step n s (record s { workers = update s.workers w idle; workload = s.workload - 1 })
  begin :
      (j : ℕ)
      → s.joins j ≡ entered
      → Step n s
          (record s { joins = update s.joins j (queueing n); counters = update s.counters j n })
  send :
      (j w : ℕ) {left : ℕ}
      → w < n
      → s.joins j ≡ queueing (suc left)
      → s.workers w ≡ idle
      → Step n s (record s {
        workers = update s.workers w (barrier j);
        workload = s.workload + 1;
        joins = update s.joins j (queueing left);
      })
  sent : (j : ℕ) → s.joins j ≡ queueing 0 → Step n s (record s { joins = update s.joins j joining })
  arrive :
      (j w : ℕ)
      → w < n
      → s.workers w ≡ barrier j
      → Step n s (record s {
        workers = update s.workers w (waiting j);
        counters = update s.counters j (s.counters j - 1);
      })
  leave :
      (j w : ℕ)
      → w < n
      → s.workers w ≡ waiting j
      → s.counters j ≡ 0
      → Step n s (record s { workers = update s.workers w idle; workload = s.workload - 1 })
  done :
      (j : ℕ)
      → s.joins j ≡ joining
      → s.counters j ≡ 0
      → Step n s (record s { joins = update s.joins j returned })

pub data Steps (n : ℕ) (s : Pool) : Pool → Type 0 where
  here : Steps n s s
  next : {t u : Pool} → Steps n s t → Step n t u → Steps n s u

-- A pool whose workers have not taken a task yet.
abbrev pub new_pool : Pool
new_pool = record {
  workers = λ w. idle;
  workload = 0;
  taken = 0;
  joins = λ j. entered;
  counters = λ j. 0;
}
