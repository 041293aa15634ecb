-- ===== src/Ufs/Directory.antt =====
-- `Directory` of utils/UFS.go. A panic is `none`.
use ppb.Prelude.{
  ◌+◌, Bool, false, Option, none, some, List, [], ◌∷◌, Bytes, length, take, drop, leb, ◌==◌,
  list_comparable, nat_comparable, if◌then◌else◌,
}
use mathlib.Core.Option
use Prim.Native.Nat.{Ordering}
use ppb.Ufs.{last_index_of_path_separator, join_path, compare_text}
use ppb.Ufs.Clean.{clean_path}

pub record Directory : Type 0 where
  pub path : Bytes

module _ (debug : Bool) (wd : Option Bytes) where
  unfoldable pub make_directory : Bytes → Option Directory
  make_directory str = Option.map (λ p. record { path = p }) (clean_path debug wd str)

  unfoldable pub normalize : Directory → Option Directory
  normalize d = make_directory d.path

unfoldable pub valid : Directory → Bool
valid d = leb 1 (length d.path)

unfoldable pub basename : Directory → Bytes
basename d = elim (last_index_of_path_separator d.path) [
  | some i ↦ drop (i + 1) d.path
  | none ↦ d.path
]

unfoldable pub parent : Directory → Option Directory
parent d = elim (last_index_of_path_separator d.path) [
  | some i ↦ some (record { path = take i d.path })
  | none ↦ none
]

unfoldable pub split : Directory → Option (Directory × Bytes)
split d = elim (last_index_of_path_separator d.path) [
  | some i ↦ some (record { path = take i d.path }, drop (i + 1) d.path)
  | none ↦ none
]

unfoldable pub folder : (debug : Bool) → Directory → List Bytes → Option Directory
unfolding join_path
folder debug d [] = some d
folder debug d (n ∷ name) =
    Option.map (λ p. record { path = p }) (join_path debug d.path (n ∷ name))

unfoldable pub is_parent_of : Directory → Directory → Bool
is_parent_of d o =
    let n = length d.path in if leb n (length o.path) then d.path == take n o.path else false

unfoldable pub is_in : Directory → Directory → Bool
is_in d o = is_parent_of o d

unfoldable pub equals : Directory → Directory → Bool
equals d o = d.path == o.path

unfoldable pub compare : Directory → Directory → Ordering
compare d o = compare_text d.path o.path
