-- ===== src/Ufs/Clean.antt =====
-- `CleanPath` of utils/UFS_linux.go, with `filepath.Clean` and `filepath.Abs` of a Unix system.
use ppb.Prelude.{
  ℕ, Bool, false, ◌&&◌, not, Option, none, some, List, [], ◌∷◌, ◌++◌, foldl, Bytes, list_comparable,
  nat_comparable, ◌==◌, if◌then◌else◌,
}
use mathlib.Core.List.{reverse}
use ppb.Ufs.{is_path_separator}

-- The parts of a path between its separators.
abbrev pub begin_part : ℕ → List Bytes → List Bytes
begin_part c [] = (c ∷ []) ∷ []
begin_part c (part ∷ parts) = (c ∷ part) ∷ parts

unfoldable pub parts_of : Bytes → List Bytes
parts_of [] = [] ∷ []
parts_of (c ∷ s) =
    let parts = parts_of s in if is_path_separator c then [] ∷ parts else begin_part c parts

abbrev pub dot : Bytes
dot = b'.' ∷ []

abbrev pub dot_dot : Bytes
dot_dot = b'.' ∷ b'.' ∷ []

-- One part, and the parts that are kept so far, the last one first.
unfoldable pub keep_part : Bool → List Bytes → Bytes → List Bytes
keep_part rooted kept part =
    if part == []
    then kept
    else if part == dot
    then kept
    else if part == dot_dot
    then (elim kept [
      | [] ↦ if rooted then [] else dot_dot ∷ []
      | last ∷ before ↦ if last == dot_dot then dot_dot ∷ last ∷ before else before
    ])
    else part ∷ kept

-- The parts with a separator between each two.
unfoldable pub path_of : List Bytes → Bytes
path_of [] = []
path_of (part ∷ []) = part
path_of (part ∷ next ∷ parts) = part ++ b'/' ∷ path_of (next ∷ parts)

-- `filepath.IsAbs`
abbrev pub is_abs : Bytes → Bool
is_abs [] = false
is_abs (c ∷ s) = is_path_separator c

-- `filepath.Clean`
unfoldable pub clean : Bytes → Bytes
unfolding parts_of keep_part path_of
clean path =
    let kept = path_of (reverse (foldl (keep_part (is_abs path)) [] (parts_of path))) in
    if is_abs path then b'/' ∷ kept else if kept == [] then dot else kept

-- `CleanPath`. `wd` is the working directory, if there is one. `none` is a panic.
unfoldable pub clean_path : (debug : Bool) (wd : Option Bytes) → Bytes → Option Bytes
clean_path debug wd in_ =
    if debug && not (is_abs in_)
    then none
    else let cleaned = clean in_ in
      if is_abs cleaned
      then some (clean cleaned)
      else (elim wd [ none ↦ none | some d ↦ some (clean (d ++ b'/' ∷ cleaned)) ])
