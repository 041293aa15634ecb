-- ===== src/Ufs/Filename.antt =====
-- `Filename` of utils/UFS.go. A panic is `none`.
use ppb.Prelude.{
  ℕ, ◌+◌, ◌-◌, Bool, ◌&&◌, Option, none, List, [], ◌∷◌, ◌++◌, Bytes, length, take, drop, leb, eqb,
  ◌==◌, list_comparable, nat_comparable, if◌then◌else◌,
}
use mathlib.Core.Option
use mathlib.Core.List.{reverse}
use Prim.Native.Nat.{Ordering}
use ppb.Ufs.{is_path_separator, joined, compare_text}
use ppb.Ufs.Clean.{clean_path}
use ppb.Ufs.Directory
use ppb.Ufs.Directory.{Directory}

pub record Filename : Type 0 where
  pub dirname : Directory
  pub basename : Bytes

-- `filepath.Split`: what the last separator ends, and what follows it. The text comes last byte first,
-- `tail` is what follows.
unfoldable pub split_file : Bytes → (tail : Bytes) → Bytes × Bytes
split_file [] tail = ([], tail)
split_file (c ∷ s) tail =
    if is_path_separator c then (reverse (c ∷ s), tail) else split_file s (c ∷ tail)

-- The file name of a clean path: the separator that ends the directory is cut off.
unfoldable pub split_clean : Bytes → Filename
split_clean str =
    let (dirname, basename) = split_file (reverse str) [] in
    record { dirname = record { path = take (length dirname - 1) dirname }; basename = basename }

-- `MakeFilename`
unfoldable pub make_filename : (debug : Bool) (wd : Option Bytes) → Bytes → Option Filename
make_filename debug wd str = Option.map split_clean (clean_path debug wd str)

unfoldable pub len : Filename → ℕ
len f =
    if leb 1 (length f.dirname.path)
    then length f.basename + length f.dirname.path + 1
    else length f.basename

unfoldable pub valid : Filename → Bool
valid f = leb 1 (length f.basename)

-- `path.Ext`, over the text with its last byte first: `tail` is what follows.
unfoldable pub ext_of : Bytes → (tail : Bytes) → Bytes
ext_of [] tail = []
ext_of (c ∷ s) tail =
    let before = ext_of s (c ∷ tail) in
    if eqb c b'/' then [] else if eqb c b'.' then c ∷ tail else before

unfoldable pub ext : Filename → Bytes
ext f = ext_of (reverse f.basename) []

-- `strings.TrimSuffix`
unfoldable pub trim_suffix : Bytes → Bytes → Bytes
trim_suffix s suffix =
    let n = length s - length suffix in
    if leb (length suffix) (length s) && (drop n s == suffix) then take n s else s

unfoldable pub trim_ext : Filename → Bytes
trim_ext f = trim_suffix f.basename (ext f)

unfoldable pub replace_ext : Filename → Bytes → Filename
replace_ext f e = record { dirname = f.dirname; basename = trim_ext f ++ e }

unfoldable pub is_in : Filename → Directory → Bool
is_in f o = Directory.is_parent_of o f.dirname

unfoldable pub equals : Filename → Filename → Bool
equals f o = (f.basename == o.basename) && Directory.equals f.dirname o.dirname

unfoldable pub compare : Filename → Filename → Ordering
compare f o =
    let c = Directory.compare f.dirname o.dirname in
    elim c [
      | Ordering.eq ↦ compare_text f.basename o.basename
      | Ordering.lt ↦ Ordering.lt
      | Ordering.gt ↦ Ordering.gt
    ]

-- Neither of the two texts is empty where they are joined, so that no assertion of `JoinPath` fails.
unfoldable pub string : Filename → Bytes
unfolding joined
string f =
    if leb 1 (length f.basename) && leb 1 (length f.dirname.path)
    then joined f.dirname.path (f.basename ∷ [])
    else if leb (length f.dirname.path) 0
    then f.basename
    else f.dirname.path

-- `Normalize`
unfoldable pub normalize : (debug : Bool) (wd : Option Bytes) → Filename → Option Filename
normalize debug wd f = make_filename debug wd (string f)

-- `File` of a directory; Go panics without a name.
unfoldable pub file : (debug : Bool) → Directory → List Bytes → Option Filename
file debug d [] = none
file debug d (n ∷ name) = elim (reverse (n ∷ name)) [
  | [] ↦ none
  | last ∷ before ↦
      Option.map (λ folder. record { dirname = folder; basename = last })
        (Directory.folder debug d (reverse before))
]
