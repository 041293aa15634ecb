-- ===== src/BuildExecution/Launch/Schedule.antt =====
-- Steps of calls and futures that stand where an equation says.
use ppb.Prelude.{update, ℕ, ◌≡◌, sym, Bool, arith}
use mathlib.Core.Path.{subst}
use ppb.BuildExecution.Launch.{
  FutureState, Holder, Node, Pc, set_future, Move, Turn, System, Step, call, run_future, Steps,
  here, next,
}

pub update_self : {A : Type 0} (pc : ℕ → A) (i : ℕ) (p : A) → update pc i p i ≡ p
update_self pc i p = ground arith

pub Steps-append :
    (force : ℕ → Bool) {s t u : System} → Steps force s t → Steps force t u → Steps force s u
Steps-append force r here = r
Steps-append force r (next q step) = next (Steps-append force r q) step

-- The state after a step of the call `i`.
abbrev pub after : System → ℕ → Node → Pc → System
after s i m p = record { node = m; pc = update s.pc i p }

abbrev pub turned : System → ℕ → Holder → FutureState → System
turned s f l a = record { node = set_future s.node f l a; pc = s.pc }

module _ (force : ℕ → Bool) (s : System) where
  pub call_at :
      (i : ℕ) {p p' : Pc} {m : Node}
      → s.pc i ≡ p
      → Move (force i) i s.node p m p'
      → Step force s (after s i m p')
  call_at i {p} {p'} {m} e mv = call i (subst (λ q. Move (force i) i s.node q m p') (sym e) mv)

  pub advance_at :
      (f : ℕ) {l l' : Holder} {a b : FutureState}
      → s.node.lock ≡ l
      → s.node.futures f ≡ a
      → Turn (s.node.hangs f) f l a l' b
      → Step force s (turned s f l' b)
  advance_at f {l} {l'} {a} {b} e q t = run_future f (
      subst (λ x. Turn (s.node.hangs f) f x (s.node.futures f) l' b) (sym e)
        (subst (λ x. Turn (s.node.hangs f) f l x l' b) (sym q) t))
