-- ===== src/Archive/Slices/Total.antt =====
-- A release build writes a slice, a pair or a record whose values can be written.
use ppb.Prelude.{ℕ, ◌≡◌, refl, ◌%◌, Option, some, List, [], ◌∷◌, ◌++◌, length, arith, false}
use ppb.Archive.Codec.{Entry, Written, Codec, Writes, word32}
use ppb.Archive.Slices.{fixed, then_write, write_each, pair, many}

abbrev pub AllWrite : {A : Type 0} → Codec A → List A → Type 0
AllWrite c [] = Unit
AllWrite c (x ∷ xs) = Writes c x × AllWrite c xs

pub fixed-Writes : (width n : ℕ) → Writes (fixed width) n
unfolding fixed
fixed-Writes width n table = (_, refl)

then_write-some :
    (first : Option Written) (next : List Entry → Option Written)
    → ((w : Written) × (first ≡ some w))
    → ((table : List Entry) → (w : Written) × (next table ≡ some w))
    → (w : Written) × (then_write first next ≡ some w)
then_write-some first next (w1, e1) more =
    let (w2, e2) = more w1.string_to_index in
    (record w2 { bytes = w1.bytes ++ w2.bytes }, ground arith)

module _ {A B : Type 0} where
  pub pair-Writes :
      (c : Codec A) (d : Codec B) (a : A) (b : B)
      → Writes c a
      → Writes d b
      → Writes (pair c d) (a, b)
  unfolding pair
  pair-Writes c d a b first second table =
      then_write-some (c.write table a) (λ t. d.write t b) (first table) second

module _ {A : Type 0} where
  write_each-Writes :
      (c : Codec A) (xs : List A)
      → AllWrite c xs
      → (table : List Entry) → (w : Written) × (write_each c table xs ≡ some w)
  unfolding write_each
  write_each-Writes c [] h table = (_, refl)
  write_each-Writes c (x ∷ xs) h table =
      then_write-some (c.write table x) (λ t. write_each c t xs) (h.0 table)
        (write_each-Writes c xs h.1)

  pub many-Writes : (c : Codec A) (xs : List A) → AllWrite c xs → Writes (many false c) xs
  unfolding many
  many-Writes c xs h table =
      then_write-some ((fixed 4).write table (length xs % word32)) (λ t. write_each c t xs)
        (fixed-Writes 4 (length xs % word32) table) (write_each-Writes c xs h)
