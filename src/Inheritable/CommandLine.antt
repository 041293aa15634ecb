-- ===== src/Inheritable/CommandLine.antt =====
-- `InheritableCommandLine`, and `CommandLine` of `InheritableBool`.
use ppb.Prelude.{
  Bytes, ℕ, zero, suc, ◌+◌, ◌<◌, ◌≡◌, refl, ap, false, ◌&&◌, Option, none, some, List, [], ◌∷◌,
  ◌++◌, arith, if◌then◌else◌, ltb, leb, eqb, length, length-append, take, drop, get_or, ◌==◌,
  ==_iff, ==-refl, list_comparable, nat_comparable, elem, elem-append, ◌↔◌, inl, inr, Bool-cases,
  Option-cases,
}
use ppb.Archive.Bytes.{take-append}

-- `-name=value`: the value is parsed by `set`. `none` is `false, nil`. 45 is the dash and 61 is `=`.
unfoldable pub inheritable_command_line : {R : Type 0} → (Bytes → R) → Bytes → Bytes → Option R
inheritable_command_line set name input =
    if ltb (length name + 1) (length input) && eqb (get_or input 0 0) 45
    then if take (length name) (drop 1 input) == name
      then if eqb (get_or input (1 + length name) 0) 61
        then some (set (drop (length name + 2) input))
        else none
      else none
    else none

-- `InheritableBool.CommandLine`: after the above, `-name` is 2, which is true, and `-no-name` is 1,
-- which is false. An error of `set` is `some none`.
unfoldable pub bool_command_line : (Bytes → Option ℕ) → Bytes → Bytes → Option (Option ℕ)
unfolding inheritable_command_line
bool_command_line set name input = elim (inheritable_command_line set name input) [
  | some r ↦ some r
  | none ↦
      if leb (length name + 1) (length input) && eqb (get_or input 0 0) 45
      then if drop 1 input == name
        then some (some 2)
        else if eqb (length input) (4 + length name)
            && (take 4 input == 45 ∷ 110 ∷ 111 ∷ 45 ∷ [])
            && (drop 4 input == name)
        then some (some 1)
        else none
      else none
]

split_at : (n : ℕ) (xs : List ℕ) → n < length xs → xs ≡ take n xs ++ get_or xs n 0 ∷ drop (suc n) xs
split_at n [] h = absurd (omega arith)
split_at zero (x ∷ xs) h = refl
split_at (suc n) (x ∷ xs) h = ap (λ ys. x ∷ ys) (split_at n xs (omega arith))

get_or-append : (xs ys : List ℕ) (y : ℕ) → get_or (xs ++ y ∷ ys) (length xs) 0 ≡ y
get_or-append [] ys y = refl
get_or-append (x ∷ xs) ys y = get_or-append xs ys y

drop-append_one : (xs ys : List ℕ) (y : ℕ) → drop (suc (length xs)) (xs ++ y ∷ ys) ≡ ys
drop-append_one [] ys y = refl
drop-append_one (x ∷ xs) ys y = drop-append_one xs ys y

module _ {R : Type 0} (set : Bytes → R) (name : Bytes) where
  command_line-value :
      (value : Bytes)
      → inheritable_command_line set name (45 ∷ name ++ 61 ∷ value) ≡ some (set value)
  unfolding inheritable_command_line
  command_line-value value =
      let two : length name + 2 ≡ suc (suc (length name)) = omega arith in
      let one : 1 + length name ≡ suc (length name) = omega arith in
      ground (
        arith,
        two,
        one,
        length-append name (61 ∷ value),
        take-append name (61 ∷ value),
        get_or-append name value 61,
        drop-append_one name value 61,
        ==-refl name,
      )

  command_line-match :
      (input : Bytes) (r : R)
      → inheritable_command_line set name input ≡ some r
      → (value : Bytes) × (input ≡ 45 ∷ name ++ 61 ∷ value) × (r ≡ set value)
  unfolding inheritable_command_line
  command_line-match [] r h = absurd (ground arith)
  command_line-match (c ∷ input) r h =
      let two : length name + 2 ≡ suc (suc (length name)) = omega arith in
      let one : 1 + length name ≡ suc (length name) = omega arith in
      elim (Bool-cases (ltb (length name + 1) (suc (length input)))) [
        | inr short ↦ absurd (ground arith)
        | inl long ↦
            let parts = split_at (length name) input (ground arith) in
            (
              drop (suc (length name)) input,
              ground (arith, one, parts, ==_iff (take (length name) input) name),
              ground (arith, one, two),
            )
      ]

-- An input is taken exactly when it is the name between a dash and `=`, with any value after it, and
-- gives what `set` makes of that value.
pub command_line_lem :
    {R : Type 0} (set : Bytes → R) (name input : Bytes) (r : R)
    → (inheritable_command_line set name input ≡ some r)
      ↔ ((value : Bytes) × (input ≡ 45 ∷ name ++ 61 ∷ value) × (r ≡ set value))
command_line_lem set name input r = (
  command_line-match set name input r,
  λ (value, e, f). ground (arith, e, f, command_line-value set name value),
)

command_line-flag :
    (set : Bytes → Option ℕ) (name input : Bytes)
    → elem 61 name ≡ false
    → elem 61 input ≡ false
    → inheritable_command_line set name (45 ∷ input) ≡ none
command_line-flag set name input h k =
    elim (Option-cases (inheritable_command_line set name (45 ∷ input))) [
      | inl e ↦ e
      | inr (r, e) ↦
          let (value, same, _) = command_line-match set name (45 ∷ input) r e in
          absurd (ground (arith, same, elem-append 61 name (61 ∷ value), h, k))
    ]

-- For a name without `=`: `-name=value` gives what `set` makes of the value, `-name` is true, and
-- `-no-name` is false.
pub bool_command_line_lem :
    (set : Bytes → Option ℕ) (name value : Bytes)
    → elem 61 name ≡ false
    → (bool_command_line set name (45 ∷ name ++ 61 ∷ value) ≡ some (set value))
      × (bool_command_line set name (45 ∷ name) ≡ some (some 2))
      × (bool_command_line set name (45 ∷ 110 ∷ 111 ∷ 45 ∷ name) ≡ some (some 1))
unfolding bool_command_line
bool_command_line_lem set name value h = (
  ground (arith, command_line-value set name value),
  ground (arith, command_line-flag set name name h h, ==-refl name),
  ground (
    arith,
    command_line-flag set name (110 ∷ 111 ∷ 45 ∷ name) h (ground arith),
    ==-refl name,
    ==_iff (110 ∷ 111 ∷ 45 ∷ name) name,
  ),
)
