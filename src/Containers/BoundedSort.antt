-- ===== src/Containers/BoundedSort.antt =====
-- `AppendBoundedSort` of internal/base/Containers.go: a sorted slice of at most `n` values.
use ppb.Prelude.{
  ℕ, zero, suc, ◌+◌, ◌-◌, ◌≤◌, ◌<◌, ◌≡◌, refl, ap, Bool, Option, none, some, List, [], ◌∷◌, ◌++◌,
  arith, if◌then◌else◌, ltb, leb, length, take, drop, length-append, length-take, take-all,
  Bool-cases, ◌⊎◌, inl, inr,
}
use ppb.Containers.Slice.{insert_at}

take-nil : {A : Type 0} (n : ℕ) → take {A = A} n [] ≡ []
take-nil zero = refl
take-nil (suc n) = refl

module _ {A : Type 0} (less : A → A → Bool) where
  -- The loop over the entries, `i` of which are passed: the place of the first greater one.
  first_greater : A → ℕ → List A → Option ℕ
  first_greater new_entry i [] = none
  first_greater new_entry i (it ∷ rest) =
      let later = first_greater new_entry (suc i) rest in
      if less new_entry it then some i else later

  unfoldable pub append_bounded_sort : List A → ℕ → A → List A
  unfolding first_greater insert_at
  append_bounded_sort sorted n new_entry = elim (first_greater new_entry 0 sorted) [
    | none ↦ if ltb (length sorted) n then sorted ++ new_entry ∷ [] else sorted
    | some i ↦
        if leb n (length sorted)
        then insert_at (take (n - 1) sorted) i new_entry
        else insert_at sorted i new_entry
  ]

  -- The specification: the unbounded insertion, before the first greater value.
  abbrev pub insert_sorted : A → List A → List A
  insert_sorted x [] = x ∷ []
  insert_sorted x (y ∷ ys) =
      let rest = insert_sorted x ys in if less x y then x ∷ y ∷ ys else y ∷ rest

  first_greater_cases :
      (x : A) (i : ℕ) (s : List A)
      → ((first_greater x i s ≡ none) × (insert_sorted x s ≡ s ++ x ∷ []))
        ⊎ ((j : ℕ) × (first_greater x i s ≡ some (i + j))
            × (j < length s)
            × (insert_sorted x s ≡ take j s ++ x ∷ drop j s))
  unfolding first_greater
  first_greater_cases x i [] = inl (refl, refl)
  first_greater_cases x i (y ∷ s) = elim (Bool-cases (less x y)) [
    | inl lt ↦ inr (0, ground arith, omega arith, rw lt)
    | inr ge ↦ elim (first_greater_cases x (suc i) s) [
      | inl (p, q) ↦ inl (rw ge p, rw (ge, q))
      | inr (j, p, h, q) ↦ inr (suc j, ground arith, omega arith, rw (ge, q))
    ]
  ]

  take-insert_at :
      (s : List A) (j m : ℕ) (x : A)
      → j < length s
      → j ≤ m
      → insert_at (take m s) j x ≡ take (suc m) (take j s ++ x ∷ drop j s)
  unfolding insert_at
  take-insert_at [] j m x h k = absurd (omega arith)
  take-insert_at (y ∷ s) zero m x h k = refl
  take-insert_at (y ∷ s) (suc j) zero x h k = absurd (omega arith)
  take-insert_at (y ∷ s) (suc j) (suc m) x h k =
      ap (λ ys. y ∷ ys) (take-insert_at s j m x (omega arith) (omega arith))

  at_capacity :
      (n : ℕ) (s : List A) (j : ℕ) (x : A)
      → j < length s
      → n ≡ length s
      → insert_at (take (n - 1) s) j x ≡ take n (take j s ++ x ∷ drop j s)
  at_capacity zero s j x h k = absurd (omega arith)
  at_capacity (suc n) s j x h k =
      let e : suc n - 1 ≡ n = omega arith in rw e (take-insert_at s j n x h (omega arith))

  take-append_left : (n : ℕ) (s t : List A) → n ≡ length s → take n (s ++ t) ≡ s
  take-append_left zero [] t h = refl
  take-append_left zero (y ∷ s) t h = absurd (omega arith)
  take-append_left (suc n) [] t h = absurd (omega arith)
  take-append_left (suc n) (y ∷ s) t h = ap (λ ys. y ∷ ys) (take-append_left n s t (omega arith))

  length-insert : (s : List A) (j : ℕ) (x : A) → length (take j s ++ x ∷ drop j s) ≡ suc (length s)
  length-insert s zero x = refl
  length-insert [] (suc j) x = refl
  length-insert (y ∷ s) (suc j) x = ap suc (length-insert s j x)

  -- On at most `n` entries it is the insertion, cut off after `n` entries.
  pub append_bounded_sort-take :
      (sorted : List A) (n : ℕ) (x : A)
      → length sorted ≤ n
      → append_bounded_sort sorted n x ≡ take n (insert_sorted x sorted)
  unfolding append_bounded_sort
  append_bounded_sort-take s n x h = elim (first_greater_cases x 0 s) [
    | inl (p, q) ↦ ground (
      arith,
      p,
      q,
      take-all n (s ++ x ∷ []),
      take-append_left n s (x ∷ []),
      length-append s (x ∷ []),
    )
    | inr (j, p, lt, q) ↦ ground (
      arith,
      p,
      q,
      take-all n (take j s ++ x ∷ drop j s),
      at_capacity n s j x lt,
      length-insert s j x,
    )
  ]

  take-take : (n : ℕ) (s : List A) → take n (take (suc n) s) ≡ take n s
  take-take zero s = refl
  take-take (suc n) [] = refl
  take-take (suc n) (y ∷ s) = ap (λ ys. y ∷ ys) (take-take n s)

  take-insert_sorted :
      (n : ℕ) (s : List A) (x : A)
      → take n (insert_sorted x (take n s)) ≡ take n (insert_sorted x s)
  take-insert_sorted zero s x = refl
  take-insert_sorted (suc n) [] x = refl
  take-insert_sorted (suc n) (y ∷ s) x = elim (Bool-cases (less x y)) [
    | inl lt ↦ rw lt (ap (λ ys. x ∷ ys) (take-take n (y ∷ s)))
    | inr ge ↦ rw ge (ap (λ ys. y ∷ ys) (take-insert_sorted n s x))
  ]

  -- A slice that is filled by one bounded insertion after another.
  unfoldable pub append_all : ℕ → List A → List A → List A
  append_all n sorted [] = sorted
  append_all n sorted (x ∷ xs) = append_all n (append_bounded_sort sorted n x) xs

  -- The insertion sort that it is compared with.
  abbrev pub insertion_sort : List A → List A → List A
  insertion_sort sorted [] = sorted
  insertion_sort sorted (x ∷ xs) = insertion_sort (insert_sorted x sorted) xs

  append_all-take :
      (n : ℕ) (s xs : List A) → append_all n (take n s) xs ≡ take n (insertion_sort s xs)
  unfolding append_all
  append_all-take n s [] = refl
  append_all-take n s (x ∷ xs) =
      rw
        (
          append_bounded_sort-take (take n s) n x (omega (arith, length-take n s)),
          take-insert_sorted n s x,
        )
        (append_all-take n (insert_sorted x s) xs)

  -- Keeping the first `n` at each insertion is to keep the first `n` of the sorted whole.
  pub append_all_lem : (n : ℕ) (xs : List A) → append_all n [] xs ≡ take n (insertion_sort [] xs)
  append_all_lem n xs = rw (take-nil n) at (append_all-take n [] xs)
