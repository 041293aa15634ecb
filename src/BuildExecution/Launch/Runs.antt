-- ===== src/BuildExecution/Launch/Runs.antt =====
-- Runs of the calls of `launchBuild` for one node.
use ppb.Prelude.{update, ℕ, ◌≡◌, refl, Bool, true, false, some, arith}
use ppb.BuildExecution.Launch.{
  starting, waiting, done, free, thread, entered, locking, rechecking, storing, rejoining, returned,
  load_none, lock_node, recheck_none, store, System, call, Steps, here, next, unlaunched,
}
use ppb.BuildExecution.Launch.Once.{unfinished_unique, launched_once}
use ppb.BuildExecution.Launch.Returns.{can_return}
use ppb.BuildExecution.Launch.Stuck.{jammed, forced_stuck}

-- The call 0 finds no future, as the call 1 did, and launches the node.
abbrev launched : System
launched = record {
  node = record {
    lock = free;
    stored = some 0;
    created = 1;
    futures = update (λ f. done) 0 starting;
    hangs = λ f. false;
  };
  pc =
      update
        (update (update (update (update (λ i. entered) 1 locking) 0 locking) 0 rechecking) 0
          storing)
        0 (returned 0);
}

launched_reached : (force : ℕ → Bool) → Steps force (unlaunched (λ f. false)) launched
launched_reached force =
    next
      (next
        (next (next (next here (call 1 (load_none refl))) (call 0 (load_none refl)))
          (call 0 (lock_node refl)))
        (call 0 (recheck_none refl)))
      (call 0 store)

unfinished_unique_example : ◌≡◌ {A = ℕ} 0 0
unfinished_unique_example =
    unfinished_unique (λ i. true) (launched_reached (λ i. true)) 0 0 (ground arith) (ground arith)

launched_once_example :
    (◌≡◌ {A = ℕ} 0 0) × (launched.node.created ≡ 1) × (launched.node.stored ≡ some 0)
launched_once_example = launched_once (λ i. refl) (launched_reached (λ i. false)) 0 0 refl

can_return_example :
    (t : System) × Steps (λ i. false) launched t
    × (f : ℕ) × (t.pc 1 ≡ returned f)
    × (t.node.futures f ≡ done)
can_return_example =
    can_return (λ i. false) (λ i. refl) (λ f. refl) (launched_reached (λ i. false)) 1

forced_stuck_example :
    Steps (λ i. true) (unlaunched (λ f. true)) (jammed (λ f. true) 0 1)
    × ((jammed (λ f. true) 0 1).pc 1 ≡ rejoining 0)
    × ((jammed (λ f. true) 0 1).node.lock ≡ thread 1)
    × ((jammed (λ f. true) 0 1).node.futures 0 ≡ waiting)
forced_stuck_example = forced_stuck (λ i. true) (λ f. true) 0 1 (ground arith) refl here
