-- ===== src/BuildExecution/Launch.antt =====
-- `launchBuild` of utils/BuildExecution.go, for one node, by any number of goroutines, with the future
-- that it makes in a release build: a goroutine that executes the node. Each step is one access to
-- what they share. The search of the state under the alias gives all of them the same state, and the
-- callbacks are left out.
pub mod Invariant
mod Schedule
pub mod Once
pub mod Returns
pub mod Stuck
mod Runs
use ppb.Prelude.{update, ℕ, suc, ◌≡◌, Bool, true, false, Option, none, some, eqb, if◌then◌else◌}

-- What the goroutine of a future does: what it reads of the node, the rest of
-- `prepareStaticDependencies_rlock`, the wait for the node's lock, the rest of `Execute`, and what
-- follows it.
pub data FutureState : Type 0 where
  starting preparing waiting running finishing done : FutureState

-- Who has the lock of the node for writing.
pub data Holder : Type 0 where
  free : Holder
  thread future : ℕ → Holder

-- The node: futures are numbered as they are made. `stored` is the future of the state. `hangs` says of
-- which futures `Execute` does not return, as after an abort, where it waits for the lock that it has.
pub record Node : Type 0 where
  pub lock : Holder
  pub stored : Option ℕ
  pub created : ℕ
  pub futures : ℕ → FutureState
  pub hangs : ℕ → Bool

-- Where a call of `launchBuild` stands.
pub data Pc : Type 0 where
  entered locking rechecking storing : Pc
  joining rejoining returned : (f : ℕ) → Pc

abbrev pub set_future : Node → ℕ → Holder → FutureState → Node
set_future m f l state = record m { lock = l; futures = update m.futures f state }

-- One step of the call `i`. `force` is `options.Force`.
pub data Move (force : Bool) (i : ℕ) (m : Node) : Pc → Node → Pc → Type 0 where
  load_none : m.stored ≡ none → Move force i m entered m locking
  load_return : {f : ℕ} → m.stored ≡ some f → force ≡ false → Move force i m entered m (returned f)
  load_join : {f : ℕ} → m.stored ≡ some f → force ≡ true → Move force i m entered m (joining f)
  joined : {f : ℕ} → m.futures f ≡ done → Move force i m (joining f) m locking
  lock_node : m.lock ≡ free → Move force i m locking (record m { lock = thread i }) rechecking
  recheck_none : m.stored ≡ none → Move force i m rechecking m storing
  recheck_return :
      {f : ℕ}
      → m.stored ≡ some f
      → force ≡ false
      → Move force i m rechecking (record m { lock = free }) (returned f)
  recheck_join :
      {f : ℕ} → m.stored ≡ some f → force ≡ true → Move force i m rechecking m (rejoining f)
  rejoined : {f : ℕ} → m.futures f ≡ done → Move force i m (rejoining f) m storing
  store :
      Move force i m storing
        (record m {
          lock = free;
          stored = some m.created;
          created = suc m.created;
          futures = update m.futures m.created starting;
        })
        (returned m.created)

-- One step of the goroutine of the future `f`: the lock and the state before, then both after. Where a
-- static dependency failed, `GetBuildable` waits until no one has the lock for writing.
pub data Turn (hangs : Bool) (f : ℕ) : Holder → FutureState → Holder → FutureState → Type 0 where
  read_node : Turn hangs f free starting free preparing
  unprepared : Turn hangs f free preparing free finishing
  prepared : {l : Holder} → Turn hangs f l preparing l waiting
  lock_future : Turn hangs f free waiting (future f) running
  unlock_future : hangs ≡ false → Turn hangs f (future f) running free finishing
  complete : {l : Holder} → Turn hangs f l finishing l done

pub record System : Type 0 where
  pub node : Node
  pub pc : ℕ → Pc

pub data Step (force : ℕ → Bool) (s : System) : System → Type 0 where
  call :
      (i : ℕ) {m : Node} {p : Pc}
      → Move (force i) i s.node (s.pc i) m p
      → Step force s (record { node = m; pc = update s.pc i p })
  run_future :
      (f : ℕ) {l : Holder} {state : FutureState}
      → Turn (s.node.hangs f) f s.node.lock (s.node.futures f) l state
      → Step force s (record { node = set_future s.node f l state; pc = s.pc })

pub data Steps (force : ℕ → Bool) (s : System) : System → Type 0 where
  here : Steps force s s
  next : {t u : System} → Steps force s t → Step force t u → Steps force s u

-- A node that no call has launched yet.
abbrev pub unlaunched : (hangs : ℕ → Bool) → System
unlaunched hangs = record {
  node = record { lock = free; stored = none; created = 0; futures = λ f. done; hangs = hangs };
  pc = λ i. entered;
}
