-- ===== src/Memoize.antt =====
-- The functions of internal/base/Memoize.go that remember what a function returned. Their lock makes the
-- calls follow one another; what is kept between two calls is a record here.
mod Runs
use ppb.Prelude.{
  ℕ, ◌≡◌, refl, ap, ◌∙◌, Bool, true, false, Option, none, some, List, [], ◌∷◌, ◌++◌, map,
  Comparable, ◌==◌, ==_iff, if◌then◌else◌, arith, Option-cases, inl, inr, Bool-cases,
}

-- What the closure of `MemoizeComparable` keeps.
pub record Memo (A T : Type 0) : Type 0 where
  pub memoized : List (A × T)
  pub last_arg : A
  pub last_ret : T

module _ {A T : Type 0} ⦃e : Comparable A⦄ where
  -- `memoized[a]`
  abbrev pub find : List (A × T) → A → Option T
  find [] a = none
  find ((key, value) ∷ entries) a = if key == a then some value else find entries a

  -- Before the first call; `arg` and `ret` are the zero values of their types.
  abbrev pub new_memo : (arg : A) (ret : T) → Memo A T
  new_memo arg ret = record { memoized = []; last_arg = arg; last_ret = ret }

  -- One call of the closure of `MemoizeComparable`.
  unfoldable pub memoize_comparable : (A → T) → Memo A T → A → T × Memo A T
  memoize_comparable fn m a =
      if m.last_arg == a then (m.last_ret, m) else (elim (find m.memoized a) [
        | some result ↦ (result, record m { last_arg = a; last_ret = result })
        | none ↦ (fn a, record { memoized = (a, fn a) ∷ m.memoized; last_arg = a; last_ret = fn a })
      ])

  -- The answers of calls that follow one another.
  unfoldable pub answers : (A → T) → Memo A T → List A → List T
  answers fn m [] = []
  answers fn m (a ∷ args) = let (ret, m') = memoize_comparable fn m a in ret ∷ answers fn m' args

  -- What is kept comes from the function.
  abbrev AllFrom : (A → T) → List (A × T) → Type 0
  AllFrom fn [] = Unit {0}
  AllFrom fn ((key, value) ∷ entries) = (value ≡ fn key) × AllFrom fn entries

  find_from :
      (fn : A → T) (entries : List (A × T)) (a : A) (t : T)
      → AllFrom fn entries
      → find entries a ≡ some t
      → t ≡ fn a
  find_from fn [] a t all h = ground arith
  find_from fn ((key, value) ∷ entries) a t (here, all) h = elim (Bool-cases (key == a)) [
    | inl same ↦ let at : key ≡ a = (==_iff key a).0 same in ground (arith, at, ap fn at)
    | inr other ↦ find_from fn entries a t all (ground arith)
  ]

  -- The last call, and all that is kept, come from the function.
  abbrev Settled : (A → T) → Memo A T → Type 0
  Settled fn m = AllFrom fn m.memoized × (m.last_ret ≡ fn m.last_arg)

  memoize_comparable-Settled :
      (fn : A → T) (m : Memo A T) (a : A)
      → Settled fn m
      → ((memoize_comparable fn m a).0 ≡ fn a) × Settled fn (memoize_comparable fn m a).1
  unfolding memoize_comparable
  memoize_comparable-Settled fn m a (all, last) = elim (Bool-cases (m.last_arg == a)) [
    | inl same ↦ rw same (last ∙ ap fn ((==_iff m.last_arg a).0 same), (all, last))
    | inr other ↦ elim (Option-cases (find m.memoized a)) [
      | inl new ↦ rw (other, new) (refl, ((refl, all), refl))
      | inr (t, known) ↦
          let right = find_from fn m.memoized a t all known in
          rw (other, known) (right, (all, right))
    ]
  ]

  -- From then on the closure is the function.
  answers-map :
      (fn : A → T) (m : Memo A T) (args : List A) → Settled fn m → answers fn m args ≡ map fn args
  unfolding answers
  answers-map fn m [] settled = refl
  answers-map fn m (a ∷ args) settled =
      let (now, after) = memoize_comparable-Settled fn m a settled in
      rw (now, answers-map fn (memoize_comparable fn m a).1 args after)

  -- What calls should return, and what those with the zero value return that come before any other.
  abbrev pub expected : (A → T) → (arg : A) (ret : T) → List A → List T
  expected fn arg ret [] = []
  expected fn arg ret (a ∷ args) =
      let rest = expected fn arg ret args in if arg == a then ret ∷ rest else fn a ∷ map fn args

  -- The closure of `MemoizeComparable` returns what the function does from the first argument on that
  -- is not the zero value; for those before it returns the zero value of its result.
  pub answers-expected :
      (fn : A → T) (arg : A) (ret : T) (args : List A)
      → answers fn (new_memo arg ret) args ≡ expected fn arg ret args
  unfolding answers memoize_comparable
  answers-expected fn arg ret [] = refl
  answers-expected fn arg ret (a ∷ args) = elim (Bool-cases (arg == a)) [
    | inl same ↦ rw same (ap (λ rest. ret ∷ rest) (answers-expected fn arg ret args))
    | inr other ↦ rw other (
        ap (λ rest. fn a ∷ rest)
          (answers-map fn (record { memoized = (a, fn a) ∷ []; last_arg = a; last_ret = fn a }) args
            ((refl, tt), refl)))
  ]
