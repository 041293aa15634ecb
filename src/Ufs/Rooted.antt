-- ===== src/Ufs/Rooted.antt =====
-- Clean absolute paths, by the names that they are made of.
use ppb.Prelude.{
  ℕ, ◌≡◌, refl, sym, Bool, true, false, ◌&&◌, not, List, [], ◌∷◌, ◌++◌, foldl, Bytes,
  list_comparable, nat_comparable, ◌==◌, arith,
}
use mathlib.Core.List.{reverse, append_assoc, reverse-reverse}
use ppb.Ufs.{is_path_separator}
use ppb.Ufs.Ascii.{is_plain}
use ppb.Ufs.Clean.{begin_part, parts_of, dot, dot_dot, keep_part, path_of, is_abs, clean}

-- A text that can be the name of a file or a directory.
abbrev pub is_name : Bytes → Bool
is_name b = not (b == []) && not (b == dot) && not (b == dot_dot) && is_plain b

abbrev pub are_names : List Bytes → Bool
are_names [] = true
are_names (b ∷ names) = is_name b && are_names names

abbrev pub rooted : List Bytes → Bytes
rooted names = b'/' ∷ path_of names

parts_of-plain : (p : Bytes) → is_plain p ≡ true → parts_of p ≡ p ∷ []
unfolding parts_of
parts_of-plain [] h = refl
parts_of-plain (c ∷ p) h = ground (arith, parts_of-plain p)

parts_of-first :
    (p rest : Bytes) → is_plain p ≡ true → parts_of (p ++ b'/' ∷ rest) ≡ p ∷ parts_of rest
unfolding parts_of
parts_of-first [] rest h = refl
parts_of-first (c ∷ p) rest h = ground (arith, parts_of-first p rest)

parts_of-path_of :
    (n : Bytes) (names : List Bytes)
    → are_names (n ∷ names) ≡ true
    → parts_of (path_of (n ∷ names)) ≡ n ∷ names
unfolding path_of
parts_of-path_of n [] h = parts_of-plain n (ground arith)
parts_of-path_of n (m ∷ names) h =
    rw (parts_of-first n (path_of (m ∷ names)) (ground arith))
      (ground (arith, parts_of-path_of m names))

keep_part-name :
    (b : Bool) (kept : List Bytes) (n : Bytes) → is_name n ≡ true → keep_part b kept n ≡ n ∷ kept
unfolding keep_part
keep_part-name b kept n h = ground arith

keep_names :
    (b : Bool) (kept names : List Bytes)
    → are_names names ≡ true
    → foldl (keep_part b) kept names ≡ foldl (λ r x. x ∷ r) kept names
keep_names b kept [] h = refl
keep_names b kept (n ∷ names) h =
    rw (keep_part-name b kept n (ground arith)) (keep_names b (n ∷ kept) names (ground arith))

-- A path of names is clean.
pub clean-rooted :
    (names : List Bytes) → are_names names ≡ true → clean (rooted names) ≡ rooted names
unfolding clean parts_of path_of keep_part
clean-rooted [] h = refl
clean-rooted (n ∷ names) h = rw (parts_of-path_of n names h) (
    let e : foldl (keep_part true) [] (n ∷ names) ≡ reverse (n ∷ names) =
      keep_names true [] (n ∷ names) h in
    rw (e, reverse-reverse (n ∷ names)))

abbrev are_plain : List Bytes → Bool
are_plain [] = true
are_plain (p ∷ parts) = is_plain p && are_plain parts

begin_part-IsPlain :
    (c : ℕ) (parts : List Bytes)
    → is_path_separator c ≡ false
    → are_plain parts ≡ true
    → are_plain (begin_part c parts) ≡ true
begin_part-IsPlain c [] h p = ground arith
begin_part-IsPlain c (part ∷ parts) h p = ground arith

parts_of-IsPlain : (s : Bytes) → are_plain (parts_of s) ≡ true
unfolding parts_of
parts_of-IsPlain [] = refl
parts_of-IsPlain (c ∷ s) = ground (arith, parts_of-IsPlain s, begin_part-IsPlain c (parts_of s))

keep_part-IsName :
    (kept : List Bytes) (part : Bytes)
    → are_names kept ≡ true
    → is_plain part ≡ true
    → are_names (keep_part true kept part) ≡ true
unfolding keep_part
keep_part-IsName [] part h p = ground arith
keep_part-IsName (last ∷ before) part h p = ground arith

kept_names :
    (kept parts : List Bytes)
    → are_names kept ≡ true
    → are_plain parts ≡ true
    → are_names (foldl (keep_part true) kept parts) ≡ true
kept_names kept [] h p = h
kept_names kept (part ∷ parts) h p =
    kept_names (keep_part true kept part) parts (keep_part-IsName kept part h (ground arith))
      (ground arith)

names_onto :
    (kept names : List Bytes)
    → are_names kept ≡ true
    → are_names names ≡ true
    → are_names (foldl (λ r x. x ∷ r) kept names) ≡ true
names_onto kept [] h p = h
names_onto kept (n ∷ names) h p = names_onto (n ∷ kept) names (ground arith) (ground arith)

-- Cleaning an absolute path leaves a path of names.
pub clean-abs :
    (s : Bytes)
    → is_abs s ≡ true
    → (names : List Bytes) × (are_names names ≡ true) × (clean s ≡ rooted names)
unfolding clean
clean-abs s h =
    let kept = foldl (keep_part (is_abs s)) [] (parts_of s) in
    let all : are_names kept ≡ true = rw h (kept_names [] (parts_of s) refl (parts_of-IsPlain s)) in
    (reverse kept, names_onto [] kept refl all, rw h)

-- The name at the end of a path of names.
pub path_of-last :
    (n : Bytes) (names : List Bytes) (b : Bytes)
    → path_of (n ∷ names ++ b ∷ []) ≡ path_of (n ∷ names) ++ b'/' ∷ b
unfolding path_of
path_of-last n [] b = refl
path_of-last n (m ∷ names) b =
    rw (path_of-last m names b) (sym (append_assoc n (b'/' ∷ path_of (m ∷ names)) (b'/' ∷ b)))

pub are_names-last :
    (names : List Bytes) (b : Bytes) → are_names (names ++ b ∷ []) ≡ (are_names names && is_name b)
are_names-last [] b = ground arith
are_names-last (n ∷ names) b = ground (arith, are_names-last names b)
