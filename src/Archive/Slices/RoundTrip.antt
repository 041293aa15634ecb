-- ===== src/Archive/Slices/RoundTrip.antt =====
-- What `SerializeMany` and `SerializeOptional` wrote can be read.
use ppb.Prelude.{
  ℕ, ◌%◌, ◌<◌, ◌≡◌, refl, Option, none, some, List, [], ◌∷◌, ◌++◌, length, arith, ltb, Bool, true,
  false, not, ◌||◌, Bool-cases, inl, inr,
}
use mathlib.Core.List.{append_assoc}
use ppb.Archive.Codec.{Codec, word32, indices, ReadsAs, RoundTrips}
use ppb.Archive.Slices.{
  fixed, bool, write_each, read_each, many, optional, fixed-RoundTrips, bool-RoundTrips,
  then_write-split,
}

module _ {A : Type 0} where
  -- Each value of the first slice is read as the one at its place in the second.
  abbrev pub AllReadAs : Codec A → List A → List A → Type 0
  AllReadAs c [] [] = Unit
  AllReadAs c [] (y ∷ ys) = ⊥
  AllReadAs c (x ∷ xs) [] = ⊥
  AllReadAs c (x ∷ xs) (y ∷ ys) = ReadsAs c x y × AllReadAs c xs ys

  -- The codec of the values of a slice of known length.
  each : ℕ → Codec A → Codec (List A)
  unfolding write_each read_each
  each n c = record { write = write_each c; read = read_each c n }

  each-ReadsAs :
      (c : Codec A) (xs ys : List A) → AllReadAs c xs ys → ReadsAs (each (length xs) c) xs ys
  unfolding each write_each read_each
  each-ReadsAs c [] (y ∷ ys) h strings w p = absurd h
  each-ReadsAs c (x ∷ xs) [] h strings w p = absurd h
  each-ReadsAs c [] [] h strings w p =
      (strings, ground arith, ground arith, λ bound rest. ground arith)
  each-ReadsAs c (x ∷ xs) (y ∷ ys) h strings w p =
      let (w1, w2, e1, e2, e) =
        then_write-split (c.write (indices 0 strings) x) (λ t. write_each c t xs) w p in
      let (s1, t1, l1, r1) = h.0 strings w1 e1 in
      let (s2, t2, l2, r2) = each-ReadsAs c xs ys h.1 s1 w2 (rw (← t1) e2) in
      (
        s2,
        ground arith,
        omega arith,
        λ bound rest. ground (
          arith,
          append_assoc w1.bytes w2.bytes rest,
          r1 (omega arith) (w2.bytes ++ rest),
          r2 bound rest,
        ),
      )

  -- A slice of less than `2 ^ 32` values is read as what its values are read as.
  pub many-ReadsAs :
      (debug : Bool) (c : Codec A) (xs ys : List A)
      → length xs < word32
      → AllReadAs c xs ys
      → ReadsAs (many debug c) xs ys
  unfolding many fixed each
  many-ReadsAs debug c xs ys small h strings w p =
      elim (Bool-cases (not debug || ltb (length xs % word32) 32000)) [
        | inr e ↦ absurd (ground arith)
        | inl sane ↦
            let size = length xs % word32 in
            let (w1, w2, e1, e2, e) =
              then_write-split ((fixed 4).write (indices 0 strings) size) (λ t. write_each c t xs) w
                (ground arith) in
            let (s1, t1, l1, r1) = fixed-RoundTrips 4 size (omega arith) strings w1 e1 in
            let (s2, t2, l2, r2) = each-ReadsAs c xs ys h s1 w2 (rw (← t1) e2) in
            (
              s2,
              ground arith,
              omega arith,
              λ bound rest.
                  let exact : length xs % word32 ≡ length xs = omega arith in
                  ground (
                    arith,
                    exact,
                    append_assoc w1.bytes w2.bytes rest,
                    r1 (omega arith) (w2.bytes ++ rest),
                    r2 bound rest,
                  ),
            )
      ]

  pub optional-RoundTrips :
      (c : Codec A) (value : Option A)
      → ((x : A) → value ≡ some x → RoundTrips c x)
      → RoundTrips (optional c) value
  unfolding optional
  optional-RoundTrips c none h strings w p =
      let (s1, t1, l1, r1) = bool-RoundTrips false strings w p in
      (s1, t1, l1, λ bound rest. ground (arith, r1 bound rest))
  optional-RoundTrips c (some x) h strings w p =
      let (w1, w2, e1, e2, e) =
        then_write-split (bool.write (indices 0 strings) true) (λ t. c.write t x) w p in
      let (s1, t1, l1, r1) = bool-RoundTrips true strings w1 e1 in
      let (s2, t2, l2, r2) = h x refl s1 w2 (rw (← t1) e2) in
      (
        s2,
        ground arith,
        omega arith,
        λ bound rest. ground (
          arith,
          append_assoc w1.bytes w2.bytes rest,
          r1 (omega arith) (w2.bytes ++ rest),
          r2 bound rest,
        ),
      )
