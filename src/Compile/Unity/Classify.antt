-- ===== src/Compile/Unity/Classify.antt =====
-- What the first loop of `GetSourceFiles` makes of a file.
use ppb.Prelude.{
  ℕ, ◌≡◌, refl, ◌∙◌, Bool, true, false, not, ◌||◌, ltb, Option, none, some, List, [], ◌∷◌, ◌++◌,
  arith, Bool-cases, inl, inr, Comparable, elem, elem-append, ◌==◌, ==_iff,
}
use mathlib.Core.Option.{map as map_option}
use ppb.Compile.Unity.{FileInfo, Classified, with_info, classify_one, classify, source}
use ppb.Compile.Unity.Fill.{shared}

module _ {F : Type 0} where
  -- A test of the result, if there is one.
  abbrev pub on_some : (Classified F → Bool) → Option (Classified F) → Bool
  on_some test none = true
  on_some test (some c) = test c

  on_some-map :
      (test : Classified F → Bool) (g : Classified F → Classified F) (o : Option (Classified F))
      → on_some test (map_option g o) ≡ on_some (λ c. test (g c)) o
  on_some-map test g none = refl
  on_some-map test g (some c) = refl

  pub on_some-true : (o : Option (Classified F)) → on_some (λ c. true) o ≡ true
  on_some-true none = refl
  on_some-true (some c) = refl

  weaken :
      (test other : Classified F → Bool) (o : Option (Classified F))
      → ((c : Classified F) → test c ≡ true → other c ≡ true)
      → on_some test o ≡ true
      → on_some other o ≡ true
  weaken test other none f h = refl
  weaken test other (some c) f h = f c h

  -- The cases of one round.
  one_round :
      (test : Classified F → Bool) (limit : ℕ) (known : Bool) (file : F)
      (info_of_file : Option FileInfo) (same grown : Option (Classified F))
      → ((info : FileInfo)
          → known ≡ true
          → on_some (λ c. test (with_info (source file true info) 0 c)) same ≡ true)
      → ((info : FileInfo)
          → known ≡ false
          → ltb info.size limit ≡ true
          → on_some (λ c. test (with_info (source file false info) info.size c)) same ≡ true)
      → ((info : FileInfo)
          → known ≡ false
          → on_some (λ c. test (with_info (source file true info) 0 c)) grown ≡ true)
      → on_some test (classify_one limit known file info_of_file same grown) ≡ true
  one_round test limit known file none same grown p q r = refl
  one_round test limit true file (some info) same grown p q r =
      on_some-map test (with_info (source file true info) 0) same ∙ p info refl
  one_round test limit false file (some info) same grown p q r =
      elim (Bool-cases (ltb info.size limit)) [
        | inl small ↦
            rw (ltb, small)
              (on_some-map test (with_info (source file false info) info.size) same
                ∙ q info refl small)
        | inr large ↦
            rw (ltb, large)
              (on_some-map test (with_info (source file true info) 0) grown ∙ r info refl)
      ]

module _ {F : Type 0} ⦃e : Comparable F⦄ (info_of : F → Option FileInfo) (limit : ℕ) where
  -- An isolated file stays isolated.
  classify-isolated :
      (f : F) (isolated files : List F)
      → elem f isolated ≡ true
      → on_some (λ c. elem f c.isolated_files) (classify info_of limit isolated files) ≡ true
  unfolding classify
  classify-isolated f isolated [] h = h
  classify-isolated f isolated (file ∷ files) h =
      one_round (λ c. elem f c.isolated_files) limit (elem file isolated) file (info_of file)
        (classify info_of limit isolated files)
        (classify info_of limit (isolated ++ file ∷ []) files)
        (λ info k. classify-isolated f isolated files h)
        (λ info k small. classify-isolated f isolated files h)
        (λ info k.
          classify-isolated f (isolated ++ file ∷ []) files
            (ground (arith, elem-append f isolated (file ∷ []), h)))

  -- Each file is isolated or shared.
  pub classify-either :
      (f : F) (isolated files : List F)
      → elem f files ≡ true
      → on_some
          (λ c. elem f c.isolated_files || elem f (shared c.infos))
          (classify info_of limit isolated files)
        ≡ true
  unfolding classify
  classify-either f isolated [] h = absurd (ground arith)
  classify-either f isolated (file ∷ files) h = elim (Bool-cases (file == f)) [
    | inl same ↦
        let e_path : file ≡ f = (==_iff file f).0 same in
        let isolated_now : (list : List F)
            → elem f list ≡ true
            → on_some (λ c. elem f c.isolated_files || elem f (shared c.infos))
                (classify info_of limit list files)
              ≡ true =
          λ list k.
            weaken (λ c. elem f c.isolated_files)
              (λ c. elem f c.isolated_files || elem f (shared c.infos))
              (classify info_of limit list files) (λ c l. ground (arith, l))
              (classify-isolated f list files k) in
        one_round (λ c. elem f c.isolated_files || elem f (shared c.infos)) limit
          (elem file isolated) file (info_of file) (classify info_of limit isolated files)
          (classify info_of limit (isolated ++ file ∷ []) files)
          (λ info k. isolated_now isolated (rw e_path at k))
          (λ info k small.
            weaken (λ c. true)
              (λ c. elem f c.isolated_files || ((file == f) || elem f (shared c.infos)))
              (classify info_of limit isolated files) (λ c l. ground (arith, same))
              (on_some-true (classify info_of limit isolated files)))
          (λ info k.
            isolated_now (isolated ++ file ∷ [])
              (ground (arith, elem-append f isolated (file ∷ []), same)))
    | inr other ↦
        one_round (λ c. elem f c.isolated_files || elem f (shared c.infos)) limit
          (elem file isolated) file (info_of file) (classify info_of limit isolated files)
          (classify info_of limit (isolated ++ file ∷ []) files)
          (λ info k. classify-either f isolated files (ground (arith, h, other)))
          (λ info k small. rw other (classify-either f isolated files (ground (arith, h, other))))
          (λ info k. classify-either f (isolated ++ file ∷ []) files (ground (arith, h, other)))
  ]

  -- What is shared was among the files.
  pub classify-shared :
      (f : F) (isolated files : List F)
      → elem f files ≡ false
      → on_some (λ c. not (elem f (shared c.infos))) (classify info_of limit isolated files) ≡ true
  unfolding classify
  classify-shared f isolated [] h = refl
  classify-shared f isolated (file ∷ files) h =
      one_round (λ c. not (elem f (shared c.infos))) limit (elem file isolated) file (info_of file)
        (classify info_of limit isolated files)
        (classify info_of limit (isolated ++ file ∷ []) files)
        (λ info k. classify-shared f isolated files (ground (arith, h)))
        (λ info k small.
          let other : (file == f) ≡ false = ground (arith, h) in
          rw other (classify-shared f isolated files (ground (arith, h))))
        (λ info k. classify-shared f (isolated ++ file ∷ []) files (ground (arith, h)))
