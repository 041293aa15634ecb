-- ===== src/Inheritable.antt =====
-- The inheritable values of internal/base/Inheritable.go: `Inherit`, `Overwrite`, and the command line
-- of a value and of a Boolean.
pub mod CommandLine
pub mod Values
mod Runs
use ppb.Prelude.{
  ◌≡◌, refl, Bool, true, false, not, Option, none, some, List, [], ◌∷◌, ◌++◌, arith, if◌then◌else◌,
  foldl,
}
use mathlib.Core.List.{reverse, reverse-cons}

module _ {A : Type 0} where
  abbrev pub or_else : Option A → A → A
  or_else none x = x
  or_else (some y) x = y

  abbrev pub last_of : A → List A → A
  last_of x [] = x
  last_of x (y ∷ ys) = last_of y ys

module _ {A : Type 0} (is_inheritable : A → Bool) where
  -- `TInheritableScalar.Inherit` and `Overwrite`
  unfoldable pub inherit_one : A → A → A
  inherit_one value other = if is_inheritable value then other else value

  unfoldable pub overwrite_one : A → A → A
  overwrite_one value other = if is_inheritable other then value else other

  -- `Inherit` and `Overwrite` of several values
  unfoldable pub inherit : A → List A → A
  unfolding inherit_one
  inherit result values = foldl inherit_one result values

  unfoldable pub overwrite_all : A → List A → A
  unfolding overwrite_one
  overwrite_all result values = foldl overwrite_one result values

  -- The first value of its own.
  abbrev pub first_own : List A → Option A
  first_own [] = none
  first_own (x ∷ xs) = if is_inheritable x then first_own xs else some x

  inherit-keeps :
      (result : A) (values : List A)
      → is_inheritable result ≡ false
      → inherit result values ≡ result
  unfolding inherit inherit_one
  inherit-keeps result [] h = refl
  inherit-keeps result (x ∷ values) h = ground (arith, inherit-keeps result values h)

  -- `Inherit` takes the first value of its own, of the result and the values, and without any the
  -- last one of them.
  pub inherit_lem :
      (result : A) (values : List A)
      → inherit result values ≡ or_else (first_own (result ∷ values)) (last_of result values)
  unfolding inherit inherit_one
  inherit_lem result [] = ground arith
  inherit_lem result (x ∷ values) =
      ground (arith, inherit_lem result values, inherit_lem x values, inherit-keeps result values)

  first_own-append :
      (xs ys : List A) (x : A)
      → or_else (first_own (xs ++ ys)) x ≡ or_else (first_own xs) (or_else (first_own ys) x)
  first_own-append [] ys x = refl
  first_own-append (y ∷ xs) ys x = ground (arith, first_own-append xs ys x)

  -- `Overwrite` takes the last one of the values that is of its own, and without any keeps the result.
  pub overwrite_all_lem :
      (result : A) (values : List A)
      → overwrite_all result values ≡ or_else (first_own (reverse values)) result
  unfolding overwrite_all overwrite_one
  overwrite_all_lem result [] = refl
  overwrite_all_lem result (x ∷ values) = ground (
    arith,
    overwrite_all_lem result values,
    overwrite_all_lem x values,
    reverse-cons x values,
    first_own-append (reverse values) (x ∷ []) result,
  )
