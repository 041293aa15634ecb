-- ===== src/Compile/Unity/Shares.antt =====
-- `GetSourceFiles` as a whole, by single files.
use ppb.Prelude.{Bool, true, not, ◌&&◌, ◌||◌, Option, none, some, List, Comparable, elem}
use mathlib.Core.Option.{map as map_option}
use ppb.Compile.Unity.{UnityFile}
use ppb.Compile.Unity.Fill.{all_inputs}

-- A file of the list is left or is an input, and an input is a file of the list.
module _ {F : Type 0} ⦃e : Comparable F⦄ where
  abbrev pub is_kept : F → List F → List F × List (UnityFile F) → Bool
  is_kept f files r =
      (not (elem f files) || (elem f r.0 || elem f (all_inputs r.1)))
      && (not (elem f (all_inputs r.1)) || elem f files)

  abbrev on_result : F → List F → Option (List F × List (UnityFile F)) → Bool
  on_result f files none = true
  on_result f files (some r) = is_kept f files r
