-- ===== src/Compile/Unity.antt =====
-- `GetSourceFiles` of compile/Unity.go: the source files of a unit that go into unity files, and the
-- files that stay by themselves. Sizes are below 2 ^ 52, where the division of `float64` is exact
-- enough, and their sum is no more than an `int64` holds.
pub mod Fill
pub mod Cluster
pub mod Classify
pub mod Shares
mod Runs
use ppb.Prelude.{
  ℕ, zero, suc, ◌+◌, ◌-◌, ◌/◌, Bool, true, false, not, ◌&&◌, ◌||◌, ltb, leb, eqb, if◌then◌else◌,
  Option, none, some, List, [], ◌∷◌, get_or, set, replicate, ◌++◌, map, length, Comparable, elem,
}
use mathlib.Core.Option.{map as map_option}

-- What `file.Info` gives: `none` is its error.
pub record FileInfo : Type 0 where
  pub size : ℕ
  pub mod_time : ℕ

-- `sourceFileInfo`, with its file.
pub record SourceFile (F : Type 0) : Type 0 where
  pub file : F
  pub isolated : Bool
  pub info : FileInfo

pub record UnityFile (F : Type 0) : Type 0 where
  pub total_size : ℕ
  pub inputs : List F

-- What the first loop makes: the infos, the isolated files and the size of the rest.
pub record Classified (F : Type 0) : Type 0 where
  pub infos : List (SourceFile F)
  pub isolated_files : List F
  pub total_size : ℕ

-- `UnityType`: the number of files of `explicit` is above 0, and `below n` is the number -(n + 3), less
-- than that of each constant, which `Set` reads as well.
pub data UnityType : Type 0 where
  unity_inherit unity_automatic unity_disabled : UnityType
  explicit below : ℕ → UnityType

module _ {F : Type 0} where
  abbrev pub with_info : SourceFile F → ℕ → Classified F → Classified F
  with_info src size c = record {
    infos = src ∷ c.infos;
    isolated_files = c.isolated_files;
    total_size = size + c.total_size;
  }

  abbrev pub source : F → Bool → FileInfo → SourceFile F
  source file isolated info = record { file = file; isolated = isolated; info = info }

  -- One round, with what the others make of the isolated files as they are, and of them with this file.
  abbrev pub classify_one :
      ℕ
      → Bool
      → F
      → Option FileInfo
      → Option (Classified F)
      → Option (Classified F)
      → Option (Classified F)
  classify_one limit known file none same grown = none
  classify_one limit known file (some info) same grown =
      if known
      then map_option (with_info (source file true info) 0) same
      else if ltb info.size limit
      then map_option (with_info (source file false info) info.size) same
      else map_option (with_info (source file true info) 0) grown

  -- The first loop, by the files that are left. `none` is an error.
  unfoldable pub classify :
      ⦃e : Comparable F⦄ → (F → Option FileInfo) → ℕ → List F → List F → Option (Classified F)
  classify info_of limit isolated [] =
      some (record { infos = []; isolated_files = isolated; total_size = 0 })
  classify info_of limit isolated (file ∷ files) =
      classify_one limit (elem file isolated) file (info_of file)
        (classify info_of limit isolated files)
        (classify info_of limit (isolated ++ file ∷ []) files)

-- `numUnityFiles`, before it is compared with the number of source files. `none` is without a meaning:
-- a division by 0, or a panic.
unfoldable pub num_unity_files : UnityType → ℕ → ℕ → Option ℕ
num_unity_files unity_inherit total limit = none
num_unity_files unity_disabled total limit = none
num_unity_files unity_automatic total limit =
    if eqb limit 0 then none else some ((total + limit - 1) / limit)
num_unity_files (explicit n) total limit = some n
num_unity_files (below n) total limit = none

-- `numSourceFilesPerUnity`
abbrev pub per_unity_of : ℕ → ℕ → ℕ
per_unity_of sources n = (sources + n - 1) / n

abbrev pub is_off : UnityType → Bool
is_off unity_inherit = true
is_off unity_disabled = true
is_off unity_automatic = false
is_off (explicit n) = false
is_off (below n) = false

-- Whether it is one of the constants, or a number of files.
abbrev pub is_known : UnityType → Bool
is_known unity_inherit = true
is_known unity_disabled = true
is_known unity_automatic = true
is_known (explicit n) = true
is_known (below n) = false

module _ {F : Type 0} where
  abbrev pub no_inputs : UnityFile F
  no_inputs = record { total_size = 0; inputs = [] }

  -- The source is recorded in the current unity.
  abbrev pub record_source : SourceFile F → UnityFile F → UnityFile F
  record_source src unity = record {
    total_size = unity.total_size + src.info.size;
    inputs = unity.inputs ++ src.file ∷ [];
  }

  abbrev pub is_full : ℕ → ℕ → UnityFile F → Bool
  is_full limit per_unity unity = ltb limit unity.total_size || leb per_unity (length unity.inputs)

  abbrev pub next_index : ℕ → ℕ → ℕ → ℕ → UnityFile F → ℕ
  next_index limit per_unity count index unity =
      if ltb (index + 1) count && is_full limit per_unity unity then index + 1 else index

  -- The loop from the oldest to the newest source.
  unfoldable pub cluster : ℕ → ℕ → ℕ → List (UnityFile F) → List (SourceFile F) → List (UnityFile F)
  cluster limit per_unity index unities [] = unities
  cluster limit per_unity index unities (src ∷ srcs) = elim src.isolated [
    | true ↦ cluster limit per_unity index unities srcs
    | false ↦
        let unity = record_source src (get_or unities index no_inputs) in
        let next = next_index limit per_unity (length unities) index unity in
        cluster limit per_unity next (set unities index unity) srcs
  ]

  abbrev pub modified_of : (F → Bool) → List F → List F
  modified_of modified [] = []
  modified_of modified (file ∷ files) =
      let rest = modified_of modified files in if modified file then file ∷ rest else rest

  -- What the last loop appends to the source files: each unity file, and its modified inputs.
  abbrev pub appended : (ℕ → ℕ → F) → (F → Bool) → ℕ → ℕ → List (UnityFile F) → List F
  appended output modified n i [] = []
  appended output modified n i (unity ∷ unities) =
      output i n ∷ modified_of modified unity.inputs ++ appended output modified n (i + 1) unities

  module _ (sorted : List (SourceFile F) → List (SourceFile F)) (output : ℕ → ℕ → F)
      (modified : F → Bool) where
    -- The source files that are left, with the unity files made. `sorted` is the order of the infos that
    -- `sort.Slice` makes by the time of the last change, `output` the name of a unity file, and
    -- `modified` says which files source control finds modified: none, if `AdaptiveUnity` is off. The
    -- source files and the inputs of the unity files are sorted by name afterwards, which is left out.
    unfoldable pub share_out : ℕ → List F → Classified F → ℕ → List F × List (UnityFile F)
    unfolding cluster
    share_out limit files c n =
        if leb (length files) n || eqb n 0
        then (files, [])
        else let unities =
            cluster limit (per_unity_of (length files) n) 0 (replicate n no_inputs)
              (sorted c.infos) in
          (c.isolated_files ++ appended output modified n 1 unities, unities)

    abbrev pub share :
        UnityType → ℕ → List F → Option (Classified F) → Option (List F × List (UnityFile F))
    share unity limit files none = none
    share unity limit files (some c) =
        map_option (share_out limit files c) (num_unity_files unity c.total_size limit)

    unfoldable pub get_source_files :
        ⦃e : Comparable F⦄
        → (F → Option FileInfo)
        → UnityType
        → ℕ
        → List F
        → List F
        → Option (List F × List (UnityFile F))
    unfolding classify num_unity_files share_out
    get_source_files info_of unity limit isolated files =
        if is_off unity
        then some (files, [])
        else share unity limit files (classify info_of limit isolated files)
