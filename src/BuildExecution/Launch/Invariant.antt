-- ===== src/BuildExecution/Launch/Invariant.antt =====
-- What holds of a node in each state that `launchBuild` can reach.
use ppb.Prelude.{
  ◌∙◌, update, ℕ, zero, suc, ◌≡◌, ◌≢◌, refl, Bool, true, false, Option, none, some, arith,
}
use ppb.BuildExecution.Launch.{
  FutureState, running, done, Holder, thread, future, Node, Pc, rechecking, storing, rejoining,
  set_future, Move, lock_node, recheck_none, recheck_join, rejoined, store, Turn, complete, System,
  Step, call, run_future, Steps, here, next, unlaunched,
}

-- The future that was made last.
abbrev pub latest : ℕ → Option ℕ
latest zero = none
latest (suc f) = some f

-- What the future that was made last does.
abbrev pub latest_state : (ℕ → FutureState) → ℕ → FutureState
latest_state futures zero = done
latest_state futures (suc f) = futures f

-- What a call that holds the lock knows.
abbrev pub Holds : Node → ℕ → Pc → Type 0
Holds m i rechecking = m.lock ≡ thread i
Holds m i (rejoining f) = (m.lock ≡ thread i) × (m.stored ≡ some f)
Holds m i storing = (m.lock ≡ thread i) × (latest_state m.futures m.created ≡ done)
Holds m i _ = Unit {0}

-- Between `node.Lock` and `node.Unlock`.
abbrev pub inside : Pc → Bool
inside rechecking = true
inside storing = true
inside (rejoining _) = true
inside _ = false

pub record Inv (m : Node) (pc : ℕ → Pc) : Type 0 where
  pub last : m.stored ≡ latest m.created
  -- All futures but the last one are done, and so are those that are not made.
  pub others : (f : ℕ) → suc f ≢ m.created → m.futures f ≡ done
  pub holds : (i : ℕ) → Holds m i (pc i)
  pub owner : (i : ℕ) → m.lock ≡ thread i → inside (pc i) ≡ true
  pub runs : (f : ℕ) → m.futures f ≡ running → m.lock ≡ future f
  pub runner : (f : ℕ) → m.lock ≡ future f → m.futures f ≡ running

module _ (force : Bool) {m : Node} {pc : ℕ → Pc} (inv : Inv m pc) (i : ℕ) where
  open inv use {last, others, holds, owner, runs, runner}

  Move-last : {p p' : Pc} {m' : Node} → Move force i m p m' p' → m'.stored ≡ latest m'.created
  Move-last store = refl
  Move-last mv = last

  Move-others :
      {p p' : Pc} {m' : Node}
      → Move force i m p m' p'
      → pc i ≡ p
      → (f : ℕ) → suc f ≢ m'.created
      → m'.futures f ≡ done
  Move-others store e f h = ground (arith, holds i, others f)
  Move-others mv e f h = others f h

  Move-Holds :
      {p p' : Pc} {m' : Node}
      → Move force i m p m' p'
      → pc i ≡ p
      → (j : ℕ) → Holds m' j (update pc i p' j)
  Move-Holds (rejoined {f} d) e j = ground (arith, holds i, holds j, last, d)
  Move-Holds (recheck_none d) e j = ground (arith, holds i, holds j, last, d)
  Move-Holds (lock_node g) e j = ground (arith, holds i, holds j, g)
  Move-Holds (recheck_join {f} d _) e j = ground (arith, holds i, holds j, d)
  Move-Holds mv e j = ground (arith, holds i, holds j)

  Move-owner :
      {p p' : Pc} {m' : Node}
      → Move force i m p m' p'
      → pc i ≡ p
      → (j : ℕ) → m'.lock ≡ thread j
      → inside (update pc i p' j) ≡ true
  Move-owner store e j q = ground (arith, holds i, owner j)
  Move-owner mv e j q = ground (arith, holds i, owner j)

  Move-runs :
      {p p' : Pc} {m' : Node}
      → Move force i m p m' p'
      → pc i ≡ p
      → (f : ℕ) → m'.futures f ≡ running
      → m'.lock ≡ future f
  Move-runs (lock_node g) e f q = ground (arith, runs f, g)
  Move-runs mv e f q = ground (arith, holds i, runs f)

  Move-runner :
      {p p' : Pc} {m' : Node}
      → Move force i m p m' p'
      → pc i ≡ p
      → (f : ℕ) → m'.lock ≡ future f
      → m'.futures f ≡ running
  Move-runner store e f q = ground (arith, holds i, runner f)
  Move-runner mv e f q = ground (arith, holds i, runner f)

  pub Move-Inv :
      {p p' : Pc} {m' : Node} → Move force i m p m' p' → pc i ≡ p → Inv m' (update pc i p')
  Move-Inv mv e = record {
    last = Move-last mv;
    others = Move-others mv e;
    holds = Move-Holds mv e;
    owner = Move-owner mv e;
    runs = Move-runs mv e;
    runner = Move-runner mv e;
  }

-- The future `g` goes from `a` to `b` while the lock goes from `l` to `l'`.
module _ {m : Node} {pc : ℕ → Pc} (inv : Inv m pc) (g : ℕ) where
  open inv use {last, others, holds, owner, runs, runner}

  Turn-others :
      {h : Bool} {l l' : Holder} {a b : FutureState}
      → Turn h g l a l' b
      → m.lock ≡ l
      → m.futures g ≡ a
      → (f : ℕ) → suc f ≢ m.created
      → update m.futures g b f ≡ done
  Turn-others complete e q f h = ground (arith, others f)
  Turn-others t e q f h = ground (arith, others f)

  Turn-Holds :
      {h : Bool} {l l' : Holder} {a b : FutureState}
      → Turn h g l a l' b
      → m.lock ≡ l
      → m.futures g ≡ a
      → (j : ℕ) → Holds (set_future m g l' b) j (pc j)
  Turn-Holds complete e q j = ground (arith, holds j)
  Turn-Holds t e q j = ground (arith, holds j)

  Turn-owner :
      {h : Bool} {l l' : Holder} {a b : FutureState}
      → Turn h g l a l' b
      → m.lock ≡ l
      → (j : ℕ) → l' ≡ thread j
      → inside (pc j) ≡ true
  Turn-owner complete e j q = ground (arith, owner j)
  Turn-owner t e j q = ground (arith, owner j)

  Turn-runs :
      {h : Bool} {l l' : Holder} {a b : FutureState}
      → Turn h g l a l' b
      → m.lock ≡ l
      → m.futures g ≡ a
      → (f : ℕ) → update m.futures g b f ≡ running
      → l' ≡ future f
  Turn-runs complete e q f r = ground (arith, runs f)
  Turn-runs t e q f r = ground (arith, runs f)

  Turn-runner :
      {h : Bool} {l l' : Holder} {a b : FutureState}
      → Turn h g l a l' b
      → m.lock ≡ l
      → m.futures g ≡ a
      → (f : ℕ) → l' ≡ future f
      → update m.futures g b f ≡ running
  Turn-runner complete e q f r = ground (arith, runner f)
  Turn-runner t e q f r = ground (arith, runner f)

  pub Turn-Inv :
      {h : Bool} {l l' : Holder} {a b : FutureState}
      → Turn h g l a l' b
      → m.lock ≡ l
      → m.futures g ≡ a
      → Inv (set_future m g l' b) pc
  Turn-Inv t e q = record {
    last = last;
    others = Turn-others t e q;
    holds = Turn-Holds t e q;
    owner = Turn-owner t e;
    runs = Turn-runs t e q;
    runner = Turn-runner t e q;
  }

module _ {force : ℕ → Bool} where
  pub Step-Inv : {s t : System} → Inv s.node s.pc → Step force s t → Inv t.node t.pc
  Step-Inv inv (call i mv) = Move-Inv (force i) inv i mv refl
  Step-Inv inv (run_future f t) = Turn-Inv inv f t refl refl

  pub Steps-Inv : {s t : System} → Inv s.node s.pc → Steps force s t → Inv t.node t.pc
  Steps-Inv inv here = inv
  Steps-Inv inv (next r step) = Step-Inv (Steps-Inv inv r) step

unlaunched-Inv : (hangs : ℕ → Bool) → Inv (unlaunched hangs).node (unlaunched hangs).pc
unlaunched-Inv hangs = record {
  last = refl;
  others = λ f h. refl;
  holds = λ i. tt;
  owner = λ i q. ground arith;
  runs = λ f q. ground arith;
  runner = λ f q. ground arith;
}

pub reached-Inv :
    (force : ℕ → Bool) {hangs : ℕ → Bool} {t : System}
    → Steps force (unlaunched hangs) t
    → Inv t.node t.pc
reached-Inv force {hangs} r = Steps-Inv (unlaunched-Inv hangs) r

Move-hangs :
    {force : Bool} {i : ℕ} {m m' : Node} {p p' : Pc} → Move force i m p m' p' → m'.hangs ≡ m.hangs
Move-hangs store = refl
Move-hangs mv = refl

-- Which futures hang does not change.
pub Steps-hangs : {force : ℕ → Bool} {s t : System} → Steps force s t → t.node.hangs ≡ s.node.hangs
Steps-hangs here = refl
Steps-hangs (next r (call i mv)) = Move-hangs mv ∙ Steps-hangs r
Steps-hangs (next r (run_future f t)) = Steps-hangs r
