-- ===== src/Events/Laws.antt =====
-- What the operations of an event do together.
use ppb.Prelude.{
  ℕ, suc, ◌+◌, ◌%◌, ◌^◌, ◌<◌, ◌≡◌, refl, ap, ◌∙◌, Bool, true, false, ◌&&◌, Option, List, [], ◌∷◌,
  ◌++◌, map, length, leb, eqb, if◌then◌else◌, arith, Option-cases, inl, inr,
}
use mathlib.Core.List.{append_assoc}
use ppb.Events.{
  Delegate, PublicEvent, invoke_delegate, add, without, remove, invoke_all, fire, fire_and_forget,
}

abbrev pub all_below : ℕ → List ℕ → Bool
all_below n [] = true
all_below n (h ∷ hs) = leb h n && all_below n hs

module _ {A E : Type 0} where
  abbrev pub handles : List (Delegate A E) → List ℕ
  handles delegates = map (λ it. it.handle) delegates

  all_stay :
      (delegates : List (Delegate A E))
      → (if eqb (length delegates) 0 then [] else delegates) ≡ delegates
  all_stay [] = refl
  all_stay (it ∷ delegates) = ground arith

  -- The delegates that are called, and those that stay, are all of them.
  fire-handles :
      (delegates : List (Delegate A E)) (arg : A)
      → (fire delegates arg).1 ++ handles (fire delegates arg).0 ≡ handles delegates
  unfolding fire
  fire-handles [] arg = refl
  fire-handles (it ∷ delegates) arg = elim (Option-cases (invoke_delegate it.delegate arg)) [
    | inl ok ↦ rw (fire, ok) (ap (λ hs. it.handle ∷ hs) (fire-handles delegates arg))
    | inr (err, failed) ↦ rw (fire, failed, all_stay delegates)
  ]

  fire-invoke_all :
      (delegates : List (Delegate A E)) (arg : A)
      → ((fire delegates arg).1 ≡ (invoke_all delegates arg).0)
        × ((fire delegates arg).2 ≡ (invoke_all delegates arg).1)
  unfolding fire invoke_all
  fire-invoke_all [] arg = (refl, refl)
  fire-invoke_all (it ∷ delegates) arg = elim (Option-cases (invoke_delegate it.delegate arg)) [
    | inl ok ↦
        let (called, error) = fire-invoke_all delegates arg in
        (
          rw (fire, invoke_all, ok) (ap (λ hs. it.handle ∷ hs) called),
          rw (fire, invoke_all, ok) error,
        )
    | inr (err, failed) ↦ (rw (fire, invoke_all, failed), rw (fire, invoke_all, failed))
  ]

  -- The delegates that are called by rounds of `FireAndForget`, and the event that is left.
  unfoldable pub fire_rounds : PublicEvent A E → List A → List ℕ × PublicEvent A E
  fire_rounds x [] = ([], x)
  fire_rounds x (arg ∷ args) =
      let (y, called, error) = fire_and_forget x arg in
      let (later, z) = fire_rounds y args in (called ++ later, z)

  -- However often `FireAndForget` is called: the delegates that are called, in the order of their calls,
  -- and then those that stay, are those of the event, each one once.
  pub fired_once :
      (x : PublicEvent A E) (args : List A)
      → (fire_rounds x args).0 ++ handles (fire_rounds x args).1.delegates ≡ handles x.delegates
  unfolding fire_rounds fire_and_forget
  fired_once x [] = refl
  fired_once x (arg ∷ args) =
      let y = (fire_and_forget x arg).0 in
      append_assoc (fire x.delegates arg).1 (fire_rounds y args).0
        (handles (fire_rounds y args).1.delegates)
      ∙ ap (λ hs. (fire x.delegates arg).1 ++ hs) (fired_once y args)
      ∙ fire-handles x.delegates arg

  without-last :
      (n : ℕ) (delegates : List (Delegate A E)) (d : Option (A → Option E))
      → all_below n (handles delegates) ≡ true
      → without (delegates ++ record { handle = suc n; delegate = d } ∷ []) (suc n)
        ≡ (true, delegates)
  unfolding without
  without-last n [] d h = ground arith
  without-last n (it ∷ delegates) d h =
      let other : eqb it.handle (suc n) ≡ false = ground arith in
      rw (without-last n delegates d (ground arith), other)

  -- The delegate that was added last is removed by the handle that `Add` gave, and nothing else is.
  pub remove-add :
      (x : PublicEvent A E) (d : Option (A → Option E))
      → all_below x.next_handle (handles x.delegates) ≡ true
      → suc x.next_handle < 2 ^ 32
      → remove (add x d).1 (add x d).0 ≡ (true, record x { next_handle = suc x.next_handle })
  unfolding add remove
  remove-add x d h lt =
      let next : (x.next_handle + 1) % 2 ^ 32 ≡ suc x.next_handle = omega arith in
      rw (next, without-last x.next_handle x.delegates d h)
