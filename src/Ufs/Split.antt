-- ===== src/Ufs/Split.antt =====
-- What `SplitPath` makes of what `JoinPath` wrote.
use ppb.Prelude.{
  is_ascii, ℕ, zero, suc, ◌+◌, ◌<◌, ◌≤◌, ◌≡◌, refl, Bool, true, ◌&&◌, List, [], ◌∷◌, ◌++◌, Bytes,
  length, length-append, take, drop, arith, assertion, some,
}
use mathlib.Core.List.{append_assoc}
use ppb.Ufs.{joined, join_path, are_full, split_loop, split_path}
use ppb.Ufs.Ascii.{is_ascii-append, is_plain, first_index_piece, first_index_last}

pub take-piece : (p rest : Bytes) → take (length p) (p ++ rest) ≡ p
take-piece [] rest = refl
take-piece (c ∷ p) rest = ground (arith, take-piece p rest)

pub drop-piece : (p : Bytes) (c : ℕ) (rest : Bytes) → drop (length p + 1) (p ++ c ∷ rest) ≡ rest
drop-piece [] c rest = refl
drop-piece (d ∷ p) c rest = ground (arith, drop-piece p c rest)

-- Texts that can be the parts of a path.
abbrev pub are_parts : List Bytes → Bool
are_parts [] = true
are_parts (p ∷ parts) = is_ascii p && is_plain p && are_parts parts

joined-split :
    (p : Bytes) (c : ℕ) (q : Bytes) (args : List Bytes)
    → joined (p ++ c ∷ q) args ≡ p ++ c ∷ joined q args
unfolding joined
joined-split p c q [] = refl
joined-split p c q (it ∷ args) =
    rw (append_assoc p (c ∷ q) (b'/' ∷ it)) (joined-split p c (q ++ b'/' ∷ it) args)

joined-IsAscii :
    (p : Bytes) (args : List Bytes)
    → is_ascii p ≡ true
    → are_parts args ≡ true
    → is_ascii (joined p args) ≡ true
unfolding joined
joined-IsAscii p [] a h = a
joined-IsAscii p (it ∷ args) a h =
    joined-IsAscii (p ++ b'/' ∷ it) args (ground (arith, is_ascii-append p (b'/' ∷ it)))
      (ground arith)

-- Each round takes one part.
split_loop-joined :
    (fuel : ℕ) (p : Bytes) (args : List Bytes)
    → length args < fuel
    → are_parts (p ∷ args) ≡ true
    → split_loop fuel (joined p args) ≡ p ∷ args
unfolding split_loop joined
split_loop-joined zero p args lt h = absurd (omega arith)
split_loop-joined (suc fuel) p [] lt h = ground (arith, first_index_last p)
split_loop-joined (suc fuel) p (it ∷ args) lt h =
    let rest = joined it args in
    let ascii =
      joined-IsAscii (p ++ b'/' ∷ it) args (ground (arith, is_ascii-append p (b'/' ∷ it)))
        (ground arith) in
    rw (joined-split p b'/' it args) (
      ground (
        arith,
        first_index_piece p rest,
        take-piece p (b'/' ∷ rest),
        drop-piece p b'/' rest,
        split_loop-joined fuel it args,
        joined-split p b'/' it args,
        ascii,
      ))

joined-length : (p : Bytes) (args : List Bytes) → length args + length p ≤ length (joined p args)
unfolding joined
joined-length p [] = omega arith
joined-length p (it ∷ args) =
    omega (arith, joined-length (p ++ b'/' ∷ it) args, length-append p (b'/' ∷ it))

-- For parts that are ASCII, have no separators, and are not empty in a debug build: `JoinPath` returns,
-- and `SplitPath` gives back the parts in their order.
pub split_path-join_path :
    (debug : Bool) (in_ : Bytes) (args : List Bytes)
    → are_parts (in_ ∷ args) ≡ true
    → assertion debug (are_full (in_ ∷ args)) ≡ true
    → (path : Bytes) × (join_path debug in_ args ≡ some path) × (split_path path ≡ in_ ∷ args)
unfolding split_path join_path
split_path-join_path debug in_ args h full = (
  joined in_ args,
  rw full,
  split_loop-joined (suc (length (joined in_ args))) in_ args
      (omega (arith, joined-length in_ args)) h,
)
