-- ===== src/Compile/Unity/Fill.antt =====
-- The unity files from the current one on.
use ppb.Prelude.{
  ℕ, zero, suc, ◌+◌, ◌*◌, ◌≡◌, refl, ap, ◌∙◌, Bool, true, false, not, ◌&&◌, ◌||◌, ltb, leb,
  if◌then◌else◌, List, [], ◌∷◌, ◌++◌, length, length-append, get_or, set, replicate, arith,
  Bool-cases, inl, inr,
}
use mathlib.Core.List.{append_assoc}
use ppb.Compile.Unity.{
  SourceFile, UnityFile, no_inputs, record_source, is_full, next_index, cluster,
}

module _ {A : Type 0} where
  get_or-middle :
      (before after : List A) (x d : A) → get_or (before ++ x ∷ after) (length before) d ≡ x
  get_or-middle [] after x d = refl
  get_or-middle (y ∷ before) after x d = get_or-middle before after x d

  set-middle :
      (before after : List A) (x y : A)
      → set (before ++ x ∷ after) (length before) y ≡ before ++ y ∷ after
  set-middle [] after x y = refl
  set-middle (z ∷ before) after x y = ap (λ (l : List A). z ∷ l) (set-middle before after x y)

  pub length-replicate : (n : ℕ) (x : A) → length (replicate n x) ≡ n
  length-replicate zero x = refl
  length-replicate (suc n) x = ap suc (length-replicate n x)

module _ {F : Type 0} where
  -- The files that are not isolated.
  abbrev pub shared : List (SourceFile F) → List F
  shared [] = []
  shared (src ∷ srcs) = let rest = shared srcs in if src.isolated then rest else src.file ∷ rest

  abbrev pub all_inputs : List (UnityFile F) → List F
  all_inputs [] = []
  all_inputs (unity ∷ unities) = unity.inputs ++ all_inputs unities

  -- The sources that go into unity files are smaller than the limit.
  abbrev pub all_small : ℕ → List (SourceFile F) → Bool
  all_small limit [] = true
  all_small limit (src ∷ srcs) = (src.isolated || ltb src.info.size limit) && all_small limit srcs

  -- All unity files but the last one are within the bounds.
  abbrev pub is_within : ℕ → ℕ → UnityFile F → Bool
  is_within limit per_unity unity =
      leb unity.total_size (2 * limit) && leb (length unity.inputs) per_unity

  abbrev pub all_within : ℕ → ℕ → List (UnityFile F) → Bool
  all_within limit per_unity [] = true
  all_within limit per_unity (unity ∷ []) = true
  all_within limit per_unity (unity ∷ next ∷ unities) =
      is_within limit per_unity unity && all_within limit per_unity (next ∷ unities)

  -- The same, from the current unity file and the number of those that follow it.
  abbrev pub fill : ℕ → ℕ → UnityFile F → ℕ → List (SourceFile F) → List (UnityFile F)
  fill limit per_unity unity n [] = unity ∷ replicate n no_inputs
  fill limit per_unity unity zero (src ∷ srcs) =
      let grown = if src.isolated then unity else record_source src unity in
      fill limit per_unity grown zero srcs
  fill limit per_unity unity (suc n) (src ∷ srcs) =
      let grown = if src.isolated then unity else record_source src unity in
      elim (not src.isolated && is_full limit per_unity grown) [
        | true ↦ grown ∷ fill limit per_unity no_inputs n srcs
        | false ↦ fill limit per_unity grown (suc n) srcs
      ]

  module _ (limit per_unity : ℕ) where
    cluster-isolated :
        (index : ℕ) (unities : List (UnityFile F)) (src : SourceFile F) (srcs : List (SourceFile F))
        → src.isolated ≡ true
        → cluster limit per_unity index unities (src ∷ srcs)
          ≡ cluster limit per_unity index unities srcs
    unfolding cluster
    cluster-isolated index unities src srcs h = ground (arith, h)

    cluster-step :
        (before after : List (UnityFile F)) (unity : UnityFile F) (src : SourceFile F)
        (srcs : List (SourceFile F))
        → src.isolated ≡ false
        → let grown = record_source src unity in
          cluster limit per_unity (length before) (before ++ unity ∷ after) (src ∷ srcs)
          ≡ cluster limit per_unity
              (next_index limit per_unity (length (before ++ unity ∷ after)) (length before) grown)
              (before ++ grown ∷ after)
              srcs
    unfolding cluster
    cluster-step before after unity src srcs h =
        rw
          (
            h,
            get_or-middle before after unity no_inputs,
            set-middle before after unity (record_source src unity),
          )
          refl

    length-last :
        (before : List (UnityFile F)) (unity : UnityFile F)
        → length (before ++ unity ∷ []) ≡ length before + 1
    length-last before unity = length-append before (unity ∷ [])

    next_index-last :
        (before : List (UnityFile F)) (unity grown : UnityFile F)
        → next_index limit per_unity (length (before ++ unity ∷ [])) (length before) grown
          ≡ length before
    next_index-last before unity grown = ground (arith, length-last before unity)

    next_index-jump :
        (before after : List (UnityFile F)) (unity next grown : UnityFile F)
        → is_full limit per_unity grown ≡ true
        → next_index limit per_unity (length (before ++ unity ∷ next ∷ after)) (length before) grown
          ≡ length (before ++ grown ∷ [])
    next_index-jump before after unity next grown full =
        ground (arith, full, length-append before (unity ∷ next ∷ after), length-last before grown)

    next_index-stay :
        (index count : ℕ) (grown : UnityFile F)
        → is_full limit per_unity grown ≡ false
        → next_index limit per_unity count index grown ≡ index
    next_index-stay index count grown full = ground (arith, full)

    pub fill-full :
        (unity : UnityFile F) (n : ℕ) (src : SourceFile F) (srcs : List (SourceFile F))
        → src.isolated ≡ false
        → is_full limit per_unity (record_source src unity) ≡ true
        → fill limit per_unity unity (suc n) (src ∷ srcs)
          ≡ record_source src unity ∷ fill limit per_unity no_inputs n srcs
    fill-full unity n src srcs h full = rw (fill, h) (rw full (rw h refl))

    pub fill-room :
        (unity : UnityFile F) (n : ℕ) (src : SourceFile F) (srcs : List (SourceFile F))
        → src.isolated ≡ false
        → is_full limit per_unity (record_source src unity) ≡ false
        → fill limit per_unity unity (suc n) (src ∷ srcs)
          ≡ fill limit per_unity (record_source src unity) (suc n) srcs
    fill-room unity n src srcs h room = rw (fill, h) (rw room (rw h refl))

    pub cluster-fill :
        (before : List (UnityFile F)) (unity : UnityFile F) (n : ℕ) (srcs : List (SourceFile F))
        → cluster limit per_unity (length before) (before ++ unity ∷ replicate n no_inputs) srcs
          ≡ before ++ fill limit per_unity unity n srcs
    cluster-fill before unity n [] = unfold cluster in refl
    cluster-fill before unity zero (src ∷ srcs) = elim (Bool-cases src.isolated) [
      | inl h ↦
          cluster-isolated (length before) (before ++ unity ∷ []) src srcs h
          ∙ rw h (cluster-fill before unity zero srcs)
      | inr h ↦
          cluster-step before [] unity src srcs h
          ∙ rw (next_index-last before unity (record_source src unity), h)
              (cluster-fill before (record_source src unity) zero srcs)
    ]
    cluster-fill before unity (suc n) (src ∷ srcs) = elim (Bool-cases src.isolated) [
      | inl h ↦
          cluster-isolated (length before) (before ++ unity ∷ replicate (suc n) no_inputs) src srcs
            h
          ∙ rw h (cluster-fill before unity (suc n) srcs)
      | inr h ↦ elim (Bool-cases (is_full limit per_unity (record_source src unity))) [
        | inl full ↦
            let grown = record_source src unity in
            let after = replicate n no_inputs in
            let rest = cluster-fill (before ++ grown ∷ []) no_inputs n srcs in
            cluster-step before (no_inputs ∷ after) unity src srcs h
            ∙ rw
                (
                  next_index-jump before after unity no_inputs grown full,
                  fill-full unity n src srcs h full,
                )
                (rw
                  (
                    append_assoc before (grown ∷ []) (no_inputs ∷ after),
                    append_assoc before (grown ∷ []) (fill limit per_unity no_inputs n srcs),
                  )
                  at rest)
        | inr room ↦
            let grown = record_source src unity in
            cluster-step before (replicate (suc n) no_inputs) unity src srcs h
            ∙ rw
                (
                  next_index-stay (length before)
                      (length (before ++ unity ∷ replicate (suc n) no_inputs)) grown room,
                  fill-room unity n src srcs h room,
                )
                (cluster-fill before grown (suc n) srcs)
      ]
    ]
