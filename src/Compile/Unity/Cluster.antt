-- ===== src/Compile/Unity/Cluster.antt =====
-- The inputs and the sizes of the unity files that the loop of `GetSourceFiles` fills.
use ppb.Prelude.{
  ℕ, zero, suc, ◌<◌, ◌≡◌, refl, ap, ◌∙◌, true, false, not, ◌&&◌, ltb, if◌then◌else◌, List, [], ◌∷◌,
  ◌++◌, length, length-append, replicate, arith, Bool-cases, inl, inr,
}
use mathlib.Core.List.{append_assoc}
use ppb.Compile.Unity.{SourceFile, UnityFile, no_inputs, record_source, is_full, cluster}
use ppb.Compile.Unity.Fill.{
  shared, all_inputs, all_small, is_within, all_within, length-replicate, fill, cluster-fill,
  fill-full, fill-room,
}

module _ {F : Type 0} where
  module _ (limit per_unity : ℕ) where
    all_inputs-replicate : (n : ℕ) → all_inputs (replicate n (no_inputs {F = F})) ≡ []
    all_inputs-replicate zero = refl
    all_inputs-replicate (suc n) = all_inputs-replicate n

    -- What a source adds to the inputs.
    inputs-grown :
        (unity : UnityFile F) (src : SourceFile F) (rest : List F)
        → (if src.isolated then unity else record_source src unity).inputs ++ rest
          ≡ unity.inputs ++ (if src.isolated then rest else src.file ∷ rest)
    inputs-grown unity src rest = elim (Bool-cases src.isolated) [
      | inl h ↦ rw h refl
      | inr h ↦ rw h (append_assoc unity.inputs (src.file ∷ []) rest)
    ]

    all_inputs-fill :
        (unity : UnityFile F) (n : ℕ) (srcs : List (SourceFile F))
        → all_inputs (fill limit per_unity unity n srcs) ≡ unity.inputs ++ shared srcs
    all_inputs-fill unity n [] = ap (λ (l : List F). unity.inputs ++ l) (all_inputs-replicate n)
    all_inputs-fill unity zero (src ∷ srcs) =
        all_inputs-fill (if src.isolated then unity else record_source src unity) zero srcs
        ∙ inputs-grown unity src (shared srcs)
    all_inputs-fill unity (suc n) (src ∷ srcs) =
        let grown = if src.isolated then unity else record_source src unity in
        elim (Bool-cases (not src.isolated && is_full limit per_unity grown)) [
          | inl full ↦
              rw (all_inputs, full)
                (ap (λ (l : List F). grown.inputs ++ l) (all_inputs-fill no_inputs n srcs)
                  ∙ inputs-grown unity src (shared srcs))
          | inr room ↦
              rw (all_inputs, room)
                (all_inputs-fill grown (suc n) srcs ∙ inputs-grown unity src (shared srcs))
        ]

    length-fill :
        (unity : UnityFile F) (n : ℕ) (srcs : List (SourceFile F))
        → length (fill limit per_unity unity n srcs) ≡ suc n
    length-fill unity n [] = ap suc (length-replicate n no_inputs)
    length-fill unity zero (src ∷ srcs) =
        length-fill (if src.isolated then unity else record_source src unity) zero srcs
    length-fill unity (suc n) (src ∷ srcs) = ground (
      arith,
      length-fill no_inputs n srcs,
      length-fill (if src.isolated then unity else record_source src unity) (suc n) srcs,
    )

    within-next :
        (unity : UnityFile F) (unities : List (UnityFile F))
        → is_within limit per_unity unity ≡ true
        → all_within limit per_unity unities ≡ true
        → all_within limit per_unity (unity ∷ unities) ≡ true
    within-next unity [] h k = refl
    within-next unity (next ∷ unities) h k = ground (arith, h, k)

    within-replicate :
        (unity : UnityFile F) (n : ℕ)
        → is_within limit per_unity unity ≡ true
        → all_within limit per_unity (unity ∷ replicate n no_inputs) ≡ true
    within-replicate unity zero h = refl
    within-replicate unity (suc n) h =
        within-next unity (replicate (suc n) no_inputs) h
          (within-replicate no_inputs n (ground arith))

    -- A current unity file that is not full has room for one more source.
    grown-within :
        (unity : UnityFile F) (src : SourceFile F)
        → is_full limit per_unity unity ≡ false
        → ltb src.info.size limit ≡ true
        → is_within limit per_unity (record_source src unity) ≡ true
    grown-within unity src room small =
        ground (arith, length-append unity.inputs (src.file ∷ []), room, small)

    room-within :
        (unity : UnityFile F)
        → is_full limit per_unity unity ≡ false
        → is_within limit per_unity unity ≡ true
    room-within unity room = ground (arith, room)

    within-last :
        (unity : UnityFile F) (srcs : List (SourceFile F))
        → all_within limit per_unity (fill limit per_unity unity zero srcs) ≡ true
    within-last unity [] = refl
    within-last unity (src ∷ srcs) =
        within-last (if src.isolated then unity else record_source src unity) srcs

    all_within-fill :
        (unity : UnityFile F) (n : ℕ) (srcs : List (SourceFile F))
        → 0 < per_unity
        → is_full limit per_unity unity ≡ false
        → all_small limit srcs ≡ true
        → all_within limit per_unity (fill limit per_unity unity n srcs) ≡ true
    all_within-fill unity n [] p room small = within-replicate unity n (room-within unity room)
    all_within-fill unity zero (src ∷ srcs) p room small = within-last unity (src ∷ srcs)
    all_within-fill unity (suc n) (src ∷ srcs) p room small = elim (Bool-cases src.isolated) [
      | inl h ↦
          rw (all_within, fill, h)
            (rw h (all_within-fill unity (suc n) srcs p room (ground (arith, small))))
      | inr h ↦ elim (Bool-cases (is_full limit per_unity (record_source src unity))) [
        | inl full ↦ rw (fill-full limit per_unity unity n src srcs h full) (
            within-next (record_source src unity) (fill limit per_unity no_inputs n srcs)
              (grown-within unity src room (ground (arith, small, h)))
              (all_within-fill no_inputs n srcs p (ground arith) (ground (arith, small))))
        | inr left ↦
            rw (fill-room limit per_unity unity n src srcs h left) (
              all_within-fill (record_source src unity) (suc n) srcs p left (ground (arith, small)))
      ]
    ]

    pub all_inputs-cluster :
        (n : ℕ) (srcs : List (SourceFile F))
        → 0 < n
        → all_inputs (cluster limit per_unity 0 (replicate n no_inputs) srcs) ≡ shared srcs
    all_inputs-cluster zero srcs some_one = absurd (omega arith)
    all_inputs-cluster (suc n) srcs some_one =
        ap all_inputs (cluster-fill limit per_unity [] no_inputs n srcs)
        ∙ all_inputs-fill no_inputs n srcs

    -- From at least one empty unity file, with room for at least one source in each, and sources below
    -- the limit: the inputs of all of them, one after another, are the sources that are not isolated, in
    -- their order; there are as many unity files as before; and all but the last one have at most the
    -- number of inputs that is asked for, and at most twice the limit in size.
    pub cluster_lem :
        (n : ℕ) (srcs : List (SourceFile F))
        → 0 < n
        → 0 < per_unity
        → all_small limit srcs ≡ true
        → let unities = cluster limit per_unity 0 (replicate n no_inputs) srcs in
          (all_inputs unities ≡ shared srcs)
          × (length unities ≡ n)
          × (all_within limit per_unity unities ≡ true)
    cluster_lem zero srcs some_one p small = absurd (omega arith)
    cluster_lem (suc n) srcs some_one p small =
        rw (cluster-fill limit per_unity [] no_inputs n srcs) (
          all_inputs-fill no_inputs n srcs,
          length-fill no_inputs n srcs,
          all_within-fill no_inputs n srcs p (ground arith) small,
        )
