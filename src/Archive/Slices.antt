-- ===== src/Archive/Slices.antt =====
-- The fixed-size values of internal/base/Archive.go, and the helpers of internal/base/Serializable.go
-- for slices, pairs and optional values.
pub mod RoundTrip
pub mod Total
use ppb.Prelude.{
  Bytes, ℕ, zero, suc, ◌+◌, ◌%◌, ◌≤◌, ◌<◌, ◌≡◌, refl, Option, none, some, List, [], ◌∷◌, ◌++◌,
  length, arith, if◌then◌else◌, ltb, eqb, Bool, true, false, not, ◌||◌, Option-cases, Bool-cases,
  inl, inr,
}
use mathlib.Core.Option
use mathlib.Core.List.{append_assoc}
use ppb.Archive.Bytes.{put_uint, uint, limit, uint-put_uint, length-put_uint}
use ppb.Archive.Codec.{
  Entry, Written, Reader, Loaded, Codec, word32, indices, read_raw, ReadsAs, RoundTrips,
  read_raw-append,
}

-- `Byte`, `UInt32`, `UInt64`: a number on so many bytes.
unfoldable pub fixed : ℕ → Codec ℕ
fixed width = record {
  write = λ table value. some (record { bytes = put_uint width value; string_to_index = table });
  read = λ r. Option.map (λ p. (uint p.0, p.1)) (read_raw width r);
}

-- `Bool`: true is written as `0xFF`, and any byte but 0 is read as true.
unfoldable pub bool : Codec Bool
unfolding fixed
bool = record {
  write = λ table value. (fixed 1).write table (if value then 255 else 0);
  read = λ r. Option.map (λ p. (not (eqb p.0 0), p.1)) ((fixed 1).read r);
}

-- One write after another.
abbrev pub append_written : List ℕ → Option Written → Option Written
append_written bytes none = none
append_written bytes (some w) = some (record w { bytes = bytes ++ w.bytes })

abbrev pub then_write : Option Written → (List Entry → Option Written) → Option Written
then_write none next = none
then_write (some w) next = append_written w.bytes (next w.string_to_index)

module _ {A B : Type 0} where
  -- One value after the other, as `SerializablePair.Serialize` does.
  unfoldable pub pair : Codec A → Codec B → Codec (A × B)
  pair c d = record {
    write = λ table value. then_write (c.write table value.0) (λ t. d.write t value.1);
    read = λ r. elim (c.read r) [
      | none ↦ none
      | some p ↦ Option.map (λ q. ((p.0, q.0), q.1)) (d.read p.1)
    ];
  }

module _ {A B : Type 0} where
  -- A record by its fields.
  unfoldable pub via : (A → B) → (B → A) → Codec A → Codec B
  via make fields c = record {
    write = λ table value. c.write table (fields value);
    read = λ r. Option.map (λ p. (make p.0, p.1)) (c.read r);
  }

module _ {A : Type 0} where
  -- The loop of `SerializeMany` on the writer.
  unfoldable pub write_each : Codec A → List Entry → List A → Option Written
  write_each c table [] = some (record { bytes = []; string_to_index = table })
  write_each c table (x ∷ xs) = then_write (c.write table x) (λ t. write_each c t xs)

  -- The loop of `SerializeMany` on the reader, over a slice that was made at its size.
  unfoldable pub read_each : Codec A → ℕ → Reader → Option (Loaded (List A))
  read_each c zero r = some ([], r)
  read_each c (suc n) r = elim (c.read r) [
    | none ↦ none
    | some p ↦ Option.map (λ q. (p.0 ∷ q.0, q.1)) (read_each c n p.1)
  ]

  -- `SerializeMany`: the number of values as a `uint32`, below 32000 in a debug build.
  unfoldable pub many : Bool → Codec A → Codec (List A)
  unfolding fixed write_each read_each
  many debug c = record {
    write = λ table slice.
        let size = length slice % word32 in
        if not debug || ltb size 32000
        then then_write ((fixed 4).write table size) (λ t. write_each c t slice)
        else none;
    read = λ r. elim ((fixed 4).read r) [
      | none ↦ none
      | some p ↦ if not debug || ltb p.0 32000 then read_each c p.0 p.1 else none
    ];
  }

  -- `SerializeOptional`: whether there is a value, and then the value.
  unfoldable pub optional : Codec A → Codec (Option A)
  unfolding bool
  optional c = record {
    write = λ table value. elim value [
      | none ↦ bool.write table false
      | some x ↦ then_write (bool.write table true) (λ t. c.write t x)
    ];
    read = λ r. elim (bool.read r) [
      | none ↦ none
      | some p ↦ elim p.0 [
        | true ↦ Option.map (λ q. (some q.0, q.1)) (c.read p.1)
        | false ↦ some (none, p.1)
      ]
    ];
  }

pub fixed-RoundTrips : (width n : ℕ) → n < limit width → RoundTrips (fixed width) n
unfolding fixed
fixed-RoundTrips width n h strings w p = (
  strings,
  ground arith,
  ground arith,
  λ bound rest. ground (
    arith,
    read_raw-append width (put_uint width n) rest strings (length-put_uint width n),
    uint-put_uint width n h,
  ),
)

pub bool-RoundTrips : (value : Bool) → RoundTrips bool value
unfolding bool
bool-RoundTrips true strings w p = ground (arith, fixed-RoundTrips 1 255 (omega arith) strings w p)
bool-RoundTrips false strings w p = ground (arith, fixed-RoundTrips 1 0 (omega arith) strings w p)

-- The two writes behind one.
pub then_write-split :
    (first : Option Written) (next : List Entry → Option Written) (w : Written)
    → then_write first next ≡ some w
    → (w1 : Written) × (w2 : Written) × (first ≡ some w1)
      × (next w1.string_to_index ≡ some w2)
      × (w ≡ record w2 { bytes = w1.bytes ++ w2.bytes })
then_write-split none next w p = cc
then_write-split (some w1) next w p = elim (Option-cases (next w1.string_to_index)) [
  | inl e ↦ absurd (ground arith)
  | inr (w2, e) ↦ (w1, w2, refl, e, ground arith)
]

module _ {A B : Type 0} where
  pub pair-ReadsAs :
      (c : Codec A) (d : Codec B) (a : A) {x : A} (b : B) {y : B}
      → ReadsAs c a x
      → ReadsAs d b y
      → ReadsAs (pair c d) (a, b) (x, y)
  unfolding pair
  pair-ReadsAs c d a b first second strings w p =
      let (w1, w2, e1, e2, e) =
        then_write-split (c.write (indices 0 strings) a) (λ t. d.write t b) w p in
      let (s1, t1, l1, r1) = first strings w1 e1 in
      let (s2, t2, l2, r2) = second s1 w2 (rw (← t1) e2) in
      (
        s2,
        ground arith,
        omega arith,
        λ bound rest. ground (
          arith,
          append_assoc w1.bytes w2.bytes rest,
          r1 (omega arith) (w2.bytes ++ rest),
          r2 bound rest,
        ),
      )

  pub via-ReadsAs :
      (make : A → B) (fields : B → A) (c : Codec A) (b : B) {a : A}
      → ReadsAs c (fields b) a
      → ReadsAs (via make fields c) b (make a)
  unfolding via
  via-ReadsAs make fields c b h strings w p =
      let (s1, t1, l1, r1) = h strings w p in
      (s1, t1, l1, λ bound rest. ground (arith, r1 bound rest))
