-- ===== src/BuildExecution/Launch/Stuck.antt =====
-- A forced call of `launchBuild` that waits for the future of the node under the lock of the node.
use ppb.Prelude.{update, ℕ, ◌≡◌, ◌≢◌, refl, Bool, true, some, arith}
use ppb.BuildExecution.Launch.{
  FutureState, starting, preparing, waiting, done, Holder, thread, Node, Pc, entered, locking,
  rechecking, storing, rejoining, returned, set_future, Move, load_none, lock_node, recheck_none,
  recheck_join, rejoined, store, Turn, read_node, prepared, unlock_future, System, Step, call,
  run_future, Steps, here, next, unlaunched,
}
use ppb.BuildExecution.Launch.Schedule.{call_at}
use ppb.BuildExecution.Launch.Invariant.{Inv, Step-Inv, reached-Inv}

-- The future waits for the lock that the call `j` has, and the call for the future.
record Jam (j : ℕ) (m : Node) (pc : ℕ → Pc) : Type 0 where
  at : pc j ≡ rejoining 0
  held : m.lock ≡ thread j
  behind : m.futures 0 ≡ waiting

module _ (force : Bool) {m : Node} {pc : ℕ → Pc} (inv : Inv m pc) (j : ℕ) (jam : Jam j m pc)
    (i : ℕ) where
  open inv use {holds}
  open jam use {at, held, behind}

  Move-Jam : {p p' : Pc} {m' : Node} → Move force i m p m' p' → pc i ≡ p → Jam j m' (update pc i p')
  Move-Jam (rejoined d) e = record { at = ground (arith, d); held = held; behind = behind }
  Move-Jam (lock_node g) e = record {
    at = ground (arith, g);
    held = ground (arith, g);
    behind = behind;
  }
  Move-Jam mv e = record {
    at = ground (arith, holds i);
    held = ground (arith, holds i);
    behind = ground (arith, holds i);
  }

  Turn-Jam :
      {h : Bool} {l l' : Holder} {a b : FutureState}
      → Turn h i l a l' b
      → m.lock ≡ l
      → m.futures i ≡ a
      → Jam j (set_future m i l' b) pc
  Turn-Jam (unlock_future _) e q = record { at = at; held = ground arith; behind = ground arith }
  Turn-Jam t e q = record { at = at; held = ground arith; behind = ground arith }

Steps-Jam :
    (force : ℕ → Bool) (j : ℕ) {s t : System}
    → Inv s.node s.pc
    → Jam j s.node s.pc
    → Steps force s t
    → Jam j t.node t.pc × Inv t.node t.pc
Steps-Jam force j inv jam here = (jam, inv)
Steps-Jam force j inv jam (next r step) =
    let (jam', inv') = Steps-Jam force j inv jam r in (Step-Jam inv' jam' step, Step-Inv inv' step)
  where
    Step-Jam :
        {s t : System} → Inv s.node s.pc → Jam j s.node s.pc → Step force s t → Jam j t.node t.pc
    Step-Jam inv jam (call i mv) = Move-Jam (force i) inv j jam i mv refl
    Step-Jam inv jam (run_future f t) = Turn-Jam true inv j jam f t refl refl

-- The call `j` finds no future, the call `i` launches the node and returns, and the call `j` gets the
-- lock before the future does.
abbrev pub jammed : (hangs : ℕ → Bool) (i j : ℕ) → System
jammed hangs i j = record {
  node = record {
    lock = thread j;
    stored = some 0;
    created = 1;
    futures = update (update (update (λ f. done) 0 starting) 0 preparing) 0 waiting;
    hangs = hangs;
  };
  pc =
      update
        (update
          (update
            (update (update (update (update (λ k. entered) j locking) i locking) i rechecking) i
              storing)
            i (returned 0))
          j rechecking)
        j (rejoining 0);
}

module _ (force hangs : ℕ → Bool) (i j : ℕ) (apart : i ≢ j) (forced : force j ≡ true) where
  jammed_reached : Steps force (unlaunched hangs) (jammed hangs i j)
  jammed_reached =
      next
        (next
          (next
            (next
              (next
                (next
                  (next
                    (next (next here (call j (load_none refl)))
                      (call_at _ _ i (ground arith) (load_none refl)))
                    (call_at _ _ i (ground arith) (lock_node refl)))
                  (call_at _ _ i (ground arith) (recheck_none refl)))
                (call_at _ _ i (ground arith) store))
              (run_future 0 read_node))
            (run_future 0 prepared))
          (call_at _ _ j (ground arith) (lock_node refl)))
        (call_at _ _ j (ground arith) (recheck_join refl forced))

  -- When the call `j` is forced, the state where it waits under the lock for a future that has not
  -- taken the lock can be reached, and in every state that can be reached from there the call still
  -- waits, still has the lock, and the future is not done.
  pub forced_stuck :
      {t : System}
      → Steps force (jammed hangs i j) t
      → Steps force (unlaunched hangs) (jammed hangs i j)
        × (t.pc j ≡ rejoining 0)
        × (t.node.lock ≡ thread j)
        × (t.node.futures 0 ≡ waiting)
  forced_stuck r =
      let (jam, inv) =
        Steps-Jam force j (reached-Inv force jammed_reached)
          (record { at = ground arith; held = refl; behind = refl }) r in
      (jammed_reached, jam.at, jam.held, jam.behind)
