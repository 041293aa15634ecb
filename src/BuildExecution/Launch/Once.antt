-- ===== src/BuildExecution/Launch/Once.antt =====
-- The futures that the calls of `launchBuild` make for one node.
use ppb.Prelude.{update, ℕ, zero, ◌≤◌, ◌≡◌, ◌≢◌, refl, Bool, true, false, some, arith}
use mathlib.Core.Path.{subst}
use ppb.BuildExecution.Launch.{
  done, Node, Pc, storing, joining, rejoining, returned, Move, load_return, load_join, recheck_none,
  recheck_return, recheck_join, store, System, Step, call, run_future, Steps, here, next,
  unlaunched,
}
use ppb.BuildExecution.Launch.Invariant.{Inv, reached-Inv}

-- Whichever calls are forced, two futures of the node that both are not done are the same one.
pub unfinished_unique :
    (force : ℕ → Bool) {hangs : ℕ → Bool} {t : System}
    → Steps force (unlaunched hangs) t
    → (f g : ℕ) → t.node.futures f ≢ done
    → t.node.futures g ≢ done
    → f ≡ g
unfinished_unique force r f g hf hg = ground (arith, others f, others g)
  where
    open (reached-Inv force r) use {others}

-- What a call knows when none is forced.
abbrev pub Knows : Node → Pc → Type 0
Knows m storing = m.created ≡ zero
Knows m (joining _) = false ≡ true
Knows m (rejoining _) = false ≡ true
Knows m (returned f) = (f ≡ 0) × (m.created ≡ 1)
Knows m _ = Unit {0}

pub record Unforced (m : Node) (pc : ℕ → Pc) : Type 0 where
  pub few : m.created ≤ 1
  pub knows : (i : ℕ) → Knows m (pc i)

module _ {m : Node} {pc : ℕ → Pc} (inv : Inv m pc) (un : Unforced m pc) (i : ℕ) where
  open inv use {last, holds}
  open un use {few, knows}

  Move-few : {p p' : Pc} {m' : Node} → Move false i m p m' p' → pc i ≡ p → m'.created ≤ 1
  Move-few store e = ground (arith, knows i)
  Move-few mv e = few

  Move-Knows :
      {p p' : Pc} {m' : Node}
      → Move false i m p m' p'
      → pc i ≡ p
      → (j : ℕ) → Knows m' (update pc i p' j)
  Move-Knows store e j = ground (arith, knows i, knows j, holds i, holds j)
  Move-Knows (load_return {f} q _) e j = ground (arith, knows j, last, q)
  Move-Knows (load_join _ wrong) e j = ground (arith, wrong)
  Move-Knows (recheck_join _ wrong) e j = ground (arith, wrong)
  Move-Knows (recheck_none q) e j = ground (arith, knows j, last, q)
  Move-Knows (recheck_return {f} q _) e j = ground (arith, knows j, last, q)
  Move-Knows mv e j = ground (arith, knows i, knows j)

  Move-Unforced :
      {p p' : Pc} {m' : Node} → Move false i m p m' p' → pc i ≡ p → Unforced m' (update pc i p')
  Move-Unforced mv e = record { few = Move-few mv e; knows = Move-Knows mv e }

module _ {force : ℕ → Bool} (none_forced : (i : ℕ) → force i ≡ false) where
  Step-Unforced :
      {s t : System}
      → Inv s.node s.pc
      → Unforced s.node s.pc
      → Step force s t
      → Unforced t.node t.pc
  Step-Unforced {s} inv un (call i {m} {p} mv) =
      Move-Unforced inv un i (subst (λ b. Move b i s.node (s.pc i) m p) (none_forced i) mv) refl
  Step-Unforced inv un (run_future f t) = record { few = un.few; knows = un.knows }

  pub reached-Unforced :
      {hangs : ℕ → Bool} {t : System} → Steps force (unlaunched hangs) t → Unforced t.node t.pc
  reached-Unforced here = record { few = omega arith; knows = λ i. tt }
  reached-Unforced (next r step) = Step-Unforced (reached-Inv force r) (reached-Unforced r) step

  -- When no call is forced, a call that has returned, has returned the first future, which is the
  -- only one made and the one that the state holds.
  pub launched_once :
      {hangs : ℕ → Bool} {t : System}
      → Steps force (unlaunched hangs) t
      → (i f : ℕ) → t.pc i ≡ returned f
      → (f ≡ 0) × (t.node.created ≡ 1) × (t.node.stored ≡ some f)
  launched_once r i f q = ground (arith, knows i, last)
    where
      open (reached-Unforced r) use {knows}
      open (reached-Inv force r) use {last}
