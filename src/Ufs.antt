-- ===== src/Ufs.antt =====
-- Paths of utils/UFS.go and utils/UFS_linux.go, on Linux: texts of paths here, `Clean` the cleaning of
-- a path, Directory and Filename the two types. A string is its bytes.
pub mod Runes
pub mod Ascii
pub mod Split
pub mod Last
pub mod Clean
pub mod Rooted
pub mod Directory
pub mod Filename
pub mod RoundTrip
mod Runs
use ppb.Prelude.{
  ℕ, zero, suc, ◌+◌, ◌-◌, ◌%◌, Bool, true, false, Option, none, some, List, [], ◌∷◌, ◌++◌, Bytes,
  length, take, drop, get_or, eqb, leb, ◌&&◌, assertion, if◌then◌else◌,
}
use Prim.Native.Nat.{compare, Ordering}
use mathlib.Core.List.{map}
use ppb.Ufs.Runes.{range, encode_rune}

-- `os.IsPathSeparator`
abbrev pub is_path_separator : ℕ → Bool
is_path_separator c = eqb c b'/'

-- The loop of `firstIndexOfPathSeparator`: a rune is cut down to its last byte.
unfoldable pub first_in : List (ℕ × ℕ) → Option ℕ
first_in [] = none
first_in ((i, ch) ∷ runes) = elim (is_path_separator (ch % 256)) [
  | true ↦ some i
  | false ↦ first_in runes
]

-- `none` is the index of the end, with `false`.
unfoldable pub first_index_of_path_separator : Bytes → Option ℕ
unfolding first_in
first_index_of_path_separator in_ = first_in (range in_)

-- The loop of `lastIndexOfPathSeparator`, over the indices of the runes, counted from the last byte `n`.
unfoldable pub last_in : Bytes → (n : ℕ) → List ℕ → Option ℕ
last_in in_ n [] = none
last_in in_ n (i ∷ indices) = elim (is_path_separator (get_or in_ (n - i) 0)) [
  | true ↦ some (n - i)
  | false ↦ last_in in_ n indices
]

unfoldable pub last_index_of_path_separator : Bytes → Option ℕ
unfolding last_in
last_index_of_path_separator in_ = last_in in_ (length in_ - 1) (map (λ r. r.0) (range in_))

-- What `JoinPath` writes.
unfoldable pub joined : Bytes → List Bytes → Bytes
joined in_ [] = in_
joined in_ (it ∷ args) = joined (in_ ++ b'/' ∷ it) args

-- What its assertions ask for: no text is empty.
abbrev pub are_full : List Bytes → Bool
are_full [] = true
are_full (it ∷ args) = leb 1 (length it) && are_full args

-- `JoinPath`. `none` is the panic of a failed assertion, in a debug build.
unfoldable pub join_path : Bool → Bytes → List Bytes → Option Bytes
unfolding joined
join_path debug in_ args =
    if assertion debug (are_full (in_ ∷ args)) then some (joined in_ args) else none

-- The loop of `SplitPath`: each round takes a byte at least.
unfoldable pub split_loop : ℕ → Bytes → List Bytes
split_loop zero in_ = []
split_loop (suc fuel) in_ = elim (first_index_of_path_separator in_) [
  | none ↦ in_ ∷ []
  | some i ↦ take i in_ ∷ split_loop fuel (drop (i + 1) in_)
]

unfoldable pub split_path : Bytes → List Bytes
unfolding split_loop
split_path in_ = split_loop (suc (length in_)) in_

-- The loop of `BuildSanitizedPath`.
unfoldable pub sanitized : ℕ → Bool → List (ℕ × ℕ) → Bytes
unfolding encode_rune
sanitized sep has_separator [] = []
sanitized sep has_separator ((i, ch) ∷ runes) = elim (is_path_separator (ch % 256)) [
  | true ↦ (if has_separator then [] else encode_rune sep) ++ sanitized sep true runes
  | false ↦ encode_rune ch ++ sanitized sep false runes
]

unfoldable pub sanitize_path : Bytes → ℕ → Bytes
unfolding sanitized
sanitize_path pathname sep = sanitized sep false (range pathname)

unfoldable pub make_basename : Bytes → Bytes
make_basename path = elim (last_index_of_path_separator path) [
  | some index ↦ drop (index + 1) path
  | none ↦ path
]

unfoldable pub make_parent_folder : Bytes → Bytes
make_parent_folder path = elim (last_index_of_path_separator path) [
  | some index ↦ take index path
  | none ↦ []
]

-- `strings.Compare`
unfoldable pub compare_text : Bytes → Bytes → Ordering
compare_text [] [] = Ordering.eq
compare_text [] (b ∷ t) = Ordering.lt
compare_text (a ∷ s) [] = Ordering.gt
compare_text (a ∷ s) (b ∷ t) =
    let rest = compare_text s t in
    elim (compare a b) [
      | Ordering.lt ↦ Ordering.lt
      | Ordering.gt ↦ Ordering.gt
      | Ordering.eq ↦ rest
    ]
