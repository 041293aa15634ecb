-- ===== src/BuildExecution/Launch/Returns.antt =====
-- How the calls of `launchBuild` for one node come to their ends when none is forced.
use ppb.Prelude.{ℕ, ◌≡◌, refl, ap, ◌∙◌, Bool, true, false, Option, none, some, arith}
use ppb.BuildExecution.Launch.{
  Holder, free, thread, future, Pc, entered, locking, rechecking, storing, joining, rejoining,
  returned, FutureState, starting, preparing, waiting, running, finishing, done, read_node,
  prepared, lock_future, complete, load_none, load_return, lock_node, recheck_none, recheck_return,
  store, unlock_future, System, Step, Steps, here, next, unlaunched,
}
use ppb.BuildExecution.Launch.Schedule.{update_self, Steps-append, call_at, advance_at}
use ppb.BuildExecution.Launch.Invariant.{inside, reached-Inv, Steps-hangs}
use ppb.BuildExecution.Launch.Once.{reached-Unforced}

-- The call `i` can come to its end from `s`, in a state where the lock is free.
abbrev CanReturn : (ℕ → Bool) → System → ℕ → Type 0
CanReturn force s i =
    (t : System) × Steps force s t × (t.node.lock ≡ free) × (f : ℕ) × (t.pc i ≡ returned f)

abbrev CanFree : (ℕ → Bool) → System → Type 0
CanFree force s = (t : System) × Steps force s t × (t.node.lock ≡ free)

abbrev CanEnd : (ℕ → Bool) → System → ℕ → Type 0
CanEnd force s f = (t : System) × Steps force s t × (t.pc ≡ s.pc) × (t.node.futures f ≡ done)

module _ (force : ℕ → Bool) (none_forced : (i : ℕ) → force i ≡ false) {hangs : ℕ → Bool}
    (returns : (f : ℕ) → hangs f ≡ false) where
  first : {s u : System} (i : ℕ) → Step force s u → CanReturn force u i → CanReturn force s i
  first i step (t, r, l, f, e) = (t, Steps-append force (next here step) r, l, f, e)

  from_storing : (s : System) (i : ℕ) → s.pc i ≡ storing → CanReturn force s i
  from_storing s i e =
      (_, next here (call_at force s i e store), refl, s.node.created, update_self s.pc i _)

  from_rechecking :
      (s : System) (i : ℕ)
      → s.pc i ≡ rechecking
      → (o : Option ℕ) → s.node.stored ≡ o
      → CanReturn force s i
  from_rechecking s i e none q =
      first i (call_at force s i e (recheck_none q)) (from_storing _ i (update_self s.pc i _))
  from_rechecking s i e (some f) q = (
    _,
    next here (call_at force s i e (recheck_return q (none_forced i))),
    refl,
    f,
    update_self s.pc i _,
  )

  from_locking : (s : System) (i : ℕ) → s.node.lock ≡ free → s.pc i ≡ locking → CanReturn force s i
  from_locking s i l e =
      first i (call_at force s i e (lock_node l))
        (from_rechecking _ i (update_self s.pc i _) _ refl)

  from_entered :
      (s : System) (i : ℕ)
      → s.node.lock ≡ free
      → s.pc i ≡ entered
      → (o : Option ℕ) → s.node.stored ≡ o
      → CanReturn force s i
  from_entered s i l e none q =
      first i (call_at force s i e (load_none q)) (from_locking _ i l (update_self s.pc i _))
  from_entered s i l e (some f) q = (
    _,
    next here (call_at force s i e (load_return q (none_forced i))),
    l,
    f,
    update_self s.pc i _,
  )

  from_free :
      {s : System}
      → Steps force (unlaunched hangs) s
      → (i : ℕ) → s.node.lock ≡ free
      → (p : Pc) → s.pc i ≡ p
      → CanReturn force s i
  from_free {s} r i l entered e = from_entered s i l e _ refl
  from_free {s} r i l locking e = from_locking s i l e
  from_free {s} r i l rechecking e = from_rechecking s i e _ refl
  from_free {s} r i l storing e = from_storing s i e
  from_free {s} r i l (joining f) e = ground (arith, (reached-Unforced none_forced r).knows i)
  from_free {s} r i l (rejoining f) e = ground (arith, (reached-Unforced none_forced r).knows i)
  from_free {s} r i l (returned f) e = (s, here, l, f, e)

  free_rechecking :
      (s : System) (k : ℕ)
      → s.pc k ≡ rechecking
      → (o : Option ℕ) → s.node.stored ≡ o
      → CanFree force s
  free_rechecking s k e none q = (
    _,
    next (next here (call_at force s k e (recheck_none q)))
        (call_at force _ k (update_self s.pc k _) store),
    refl,
  )
  free_rechecking s k e (some f) q =
      (_, next here (call_at force s k e (recheck_return q (none_forced k))), refl)

  -- The call that holds the lock gives it back.
  frees :
      {s : System}
      → Steps force (unlaunched hangs) s
      → (k : ℕ) → (p : Pc) → s.pc k ≡ p
      → inside p ≡ true
      → CanFree force s
  frees {s} r k rechecking e _ = free_rechecking s k e _ refl
  frees {s} r k storing e _ = (_, next here (call_at force s k e store), refl)
  frees {s} r k (rejoining f) e _ = ground (arith, (reached-Unforced none_forced r).knows k)
  frees {s} r k _ e q = ground (arith, q)

  -- A reachable state has none that hangs.
  none_hangs : {s : System} → Steps force (unlaunched hangs) s → (f : ℕ) → s.node.hangs f ≡ false
  none_hangs r f = ap (λ h. h f) (Steps-hangs r) ∙ returns f

  can_free :
      {s : System}
      → Steps force (unlaunched hangs) s
      → (l : Holder) → s.node.lock ≡ l
      → CanFree force s
  can_free {s} r free e = (s, here, e)
  can_free {s} r (thread k) e = frees r k _ refl ((reached-Inv force r).owner k e)
  can_free {s} r (future f) e = (
    _,
    next here (
        advance_at force s f e ((reached-Inv force r).runner f e) (unlock_future (none_hangs r f))),
    refl,
  )

  advance_first :
      {s u : System} (f : ℕ) → Step force s u → CanEnd force u f → u.pc ≡ s.pc → CanEnd force s f
  advance_first f step (t, r, same, e) q = (t, Steps-append force (next here step) r, same ∙ q, e)

  ends_finishing : (s : System) (f : ℕ) → s.node.futures f ≡ finishing → CanEnd force s f
  ends_finishing s f e =
      (_, next here (advance_at force s f refl e complete), refl, update_self s.node.futures f _)

  ends_running :
      (s : System) (f : ℕ)
      → s.node.hangs f ≡ false
      → s.node.lock ≡ future f
      → s.node.futures f ≡ running
      → CanEnd force s f
  ends_running s f n l e =
      advance_first f (advance_at force s f l e (unlock_future n))
        (ends_finishing _ f (update_self s.node.futures f _)) refl

  ends_waiting :
      (s : System) (f : ℕ)
      → s.node.hangs f ≡ false
      → s.node.lock ≡ free
      → s.node.futures f ≡ waiting
      → CanEnd force s f
  ends_waiting s f n l e =
      advance_first f (advance_at force s f l e lock_future)
        (ends_running _ f n refl (update_self s.node.futures f _)) refl

  ends_preparing :
      (s : System) (f : ℕ)
      → s.node.hangs f ≡ false
      → s.node.lock ≡ free
      → s.node.futures f ≡ preparing
      → CanEnd force s f
  ends_preparing s f n l e =
      advance_first f (advance_at force s f l e prepared)
        (ends_waiting _ f n refl (update_self s.node.futures f _)) refl

  -- From a free lock, a future comes to its end.
  ends :
      {s : System}
      → Steps force (unlaunched hangs) s
      → (f : ℕ) → s.node.lock ≡ free
      → (a : FutureState) → s.node.futures f ≡ a
      → CanEnd force s f
  ends {s} r f l starting e =
      advance_first f (advance_at force s f l e read_node)
        (ends_preparing _ f (none_hangs r f) refl (update_self s.node.futures f _)) refl
  ends {s} r f l preparing e = ends_preparing s f (none_hangs r f) l e
  ends {s} r f l waiting e = ends_waiting s f (none_hangs r f) l e
  ends {s} r f l running e = ends_running s f (none_hangs r f) ((reached-Inv force r).runs f e) e
  ends {s} r f l finishing e = ends_finishing s f e
  ends {s} r f l done e = (s, here, refl, e)

  -- When no call is forced, and `Execute` of no future hangs, each call can return from every reachable
  -- state, a future that is done.
  pub can_return :
      {s : System}
      → Steps force (unlaunched hangs) s
      → (i : ℕ)
      → (t : System) × Steps force s t × (f : ℕ) × (t.pc i ≡ returned f) × (t.node.futures f ≡ done)
  can_return {s} r i =
      let (t, q, l) = can_free r _ refl in
      let (u, q', l', f, e) = from_free (Steps-append force r q) i l _ refl in
      let all = Steps-append force q q' in
      let (v, q'', same, over) = ends (Steps-append force r all) f l' _ refl in
      (v, Steps-append force all q'', f, ap (λ pc. pc i) same ∙ e, over)
