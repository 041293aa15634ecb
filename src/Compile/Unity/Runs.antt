-- ===== src/Compile/Unity/Runs.antt =====
-- Runs of `GetSourceFiles`, on files that are numbers. The size of a file is its number.
use ppb.Prelude.{
  ◌≡◌, refl, ℕ, ◌+◌, true, false, Option, some, none, List, [], ◌∷◌, nat_comparable, replicate,
  length, map, arith,
}
use ppb.Compile.Unity.{
  below, FileInfo, SourceFile, UnityFile, source, cluster, no_inputs, get_source_files,
  unity_automatic, unity_disabled, explicit,
}
use ppb.Compile.Unity.Fill.{shared, all_inputs, all_within}
use ppb.Compile.Unity.Cluster.{cluster_lem}

abbrev info : ℕ → FileInfo
info file = record { size = file; mod_time = 0 }

abbrev four : List (SourceFile ℕ)
four = map (λ file. source file false (info file)) (1 ∷ 2 ∷ 3 ∷ 4 ∷ [])

abbrev inputs_of : Option (List ℕ × List (UnityFile ℕ)) → Option (List (List ℕ))
inputs_of none = none
inputs_of (some r) = some (map (λ unity. unity.inputs) r.1)

abbrev left_of : Option (List ℕ × List (UnityFile ℕ)) → Option (List ℕ)
left_of none = none
left_of (some r) = some r.0

-- The large file 9 stays by itself, with the isolated file 2.
left_run :
    left_of (
      get_source_files
        (λ l. l)
        (λ i n. 100 + i)
        (λ f. false)
        (λ f. some (info f))
        (explicit 2)
        8
        (2 ∷ [])
        (1 ∷ 2 ∷ 9 ∷ 3 ∷ []))
    ≡ some (2 ∷ 9 ∷ 101 ∷ 102 ∷ [])
unfolding get_source_files
left_run = refl

-- A modified file is excluded from its unity file and appended.
modified_run :
    left_of (
      get_source_files
        (λ l. l)
        (λ i n. 100 + i)
        (λ f. true)
        (λ f. some (info f))
        unity_automatic
        4
        []
        (1 ∷ 2 ∷ 3 ∷ []))
    ≡ some (101 ∷ 1 ∷ 2 ∷ 102 ∷ 3 ∷ [])
unfolding get_source_files
modified_run = refl

off_run :
    left_of (
      get_source_files
        (λ l. l)
        (λ i n. 100 + i)
        (λ f. false)
        (λ f. none)
        unity_disabled
        8
        []
        (1 ∷ 2 ∷ []))
    ≡ some (1 ∷ 2 ∷ [])
unfolding get_source_files
off_run = refl

error_run :
    left_of (
      get_source_files
        (λ l. l)
        (λ i n. 100 + i)
        (λ f. false)
        (λ f. none)
        unity_automatic
        8
        []
        (1 ∷ 2 ∷ []))
    ≡ none
unfolding get_source_files
error_run = refl

-- -5, which `Set` of `UnityType` reads: a panic.
negative_run :
    get_source_files
      (λ l. l)
      (λ i n. 100 + i)
      (λ f. false)
      (λ f. some (info f))
      (below 2)
      8
      []
      (1 ∷ 2 ∷ [])
    ≡ none
unfolding get_source_files
negative_run = refl

-- Of four files, two go into each unity file: the third one has no inputs.
empty_unity :
    inputs_of (
      get_source_files
        (λ l. l)
        (λ i n. 100 + i)
        (λ f. false)
        (λ f. some (info f))
        (explicit 3)
        8
        []
        (1 ∷ 2 ∷ 3 ∷ 4 ∷ []))
    ≡ some ((1 ∷ 2 ∷ []) ∷ (3 ∷ 4 ∷ []) ∷ [] ∷ [])
unfolding get_source_files
empty_unity = refl

cluster_lem_example :
    (all_inputs (cluster 8 2 0 (replicate 2 no_inputs) four) ≡ shared four)
    × (length (cluster 8 2 0 (replicate 2 no_inputs) four) ≡ 2)
    × (all_within 8 2 (cluster 8 2 0 (replicate 2 no_inputs) four) ≡ true)
cluster_lem_example = cluster_lem 8 2 2 four (omega arith) (omega arith) refl
