-- ===== src/Events.antt =====
-- `PublicEvent` of internal/base/Event.go: delegates with their handles, in the order they were added.
-- What a delegate does is the error that it returns; those that are called are listed by handle.
pub mod Laws
mod Runs
use ppb.Prelude.{
  ℕ, ◌+◌, ◌%◌, ◌^◌, ◌≡◌, Bool, true, false, Option, none, some, List, [], ◌∷◌, ◌++◌, map, length,
  leb, eqb, if◌then◌else◌,
}

-- One of the delegates, with its handle; a delegate that is nil is `none`.
pub record Delegate (A E : Type 0) : Type 0 where
  pub handle : ℕ
  pub delegate : Option (A → Option E)

-- `next_handle` is an `int32`, by its bits.
pub record PublicEvent (A E : Type 0) : Type 0 where
  pub delegates : List (Delegate A E)
  pub next_handle : ℕ

module _ {A E : Type 0} where
  -- `EventDelegate.Invoke`
  abbrev pub invoke_delegate : Option (A → Option E) → A → Option E
  invoke_delegate none arg = none
  invoke_delegate (some x) arg = x arg

  unfoldable pub bound : PublicEvent A E → Bool
  bound x = leb 1 (length x.delegates)

  unfoldable pub add : PublicEvent A E → Option (A → Option E) → ℕ × PublicEvent A E
  add x e =
      let handle = (x.next_handle + 1) % 2 ^ 32 in
      (
        handle,
        record {
          delegates = x.delegates ++ record { handle = handle; delegate = e } ∷ [];
          next_handle = handle;
        },
      )

  -- The loop of `Remove`.
  unfoldable pub without : List (Delegate A E) → ℕ → Bool × List (Delegate A E)
  without [] handle = (false, [])
  without (it ∷ delegates) handle =
      let (found, rest) = without delegates handle in
      if eqb it.handle handle then (true, delegates) else (found, it ∷ rest)

  unfoldable pub remove : PublicEvent A E → ℕ → Bool × PublicEvent A E
  remove x handle =
      let (found, rest) = without x.delegates handle in (found, record x { delegates = rest })

  -- `Invoke`: the handles of the delegates that are called, and the error.
  unfoldable pub invoke_all : List (Delegate A E) → A → List ℕ × Option E
  invoke_all [] arg = ([], none)
  invoke_all (it ∷ delegates) arg =
      let (called, error) = invoke_all delegates arg in
      elim (invoke_delegate it.delegate arg) [
        | some err ↦ (it.handle ∷ [], some err)
        | none ↦ (it.handle ∷ called, error)
      ]

  unfoldable pub invoke : PublicEvent A E → A → List ℕ × Option E
  invoke x arg = invoke_all x.delegates arg

  -- The loop of `FireAndForget`: the delegates that stay, those that are called, and the error.
  unfoldable pub fire : List (Delegate A E) → A → List (Delegate A E) × List ℕ × Option E
  fire [] arg = ([], [], none)
  fire (it ∷ delegates) arg =
      let (left, called, error) = fire delegates arg in
      elim (invoke_delegate it.delegate arg) [
        | some err ↦ (if eqb (length delegates) 0 then [] else delegates, it.handle ∷ [], some err)
        | none ↦ (left, it.handle ∷ called, error)
      ]

  unfoldable pub fire_and_forget : PublicEvent A E → A → PublicEvent A E × List ℕ × Option E
  fire_and_forget x arg =
      let (left, called, error) = fire x.delegates arg in
      (record x { delegates = left }, called, error)

  abbrev pub new_event : PublicEvent A E
  new_event = record { delegates = []; next_handle = 0 }

  -- `Clear`
  unfoldable pub clear : PublicEvent A E → PublicEvent A E
  clear x = new_event
