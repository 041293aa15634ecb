-- ===== src/Archive/Text.antt =====
-- `String` of the writer and of the reader of internal/base/Archive.go: a string that was written
-- before is written as a negative index.
use ppb.Prelude.{
  Bytes, ℕ, suc, ◌+◌, ◌-◌, ◌%◌, ◌≤◌, ◌<◌, ◌≡◌, Option, none, some, List, [], ◌∷◌, ◌++◌, length,
  length-append, arith, if◌then◌else◌, leb, ltb, Bool, true, false, not, ◌||◌, ◌&&◌, ◌==◌,
  get_elem?, Option-cases, Bool-cases, list_comparable, nat_comparable, inl, inr, ==_iff,
}
use mathlib.Core.Option
use mathlib.Core.List.{append_assoc}
use ppb.Archive.Bytes.{put_uint, uint, uint-put_uint, length-put_uint}
use ppb.Archive.Codec.{
  Entry, Written, Reader, Loaded, Codec, word32, negative, indices, read_raw, RoundTrips,
  length-indices, ReadsAs-read, Writes, read_raw-append,
}

-- Whether the bits of an `int32` are those of a negative number.
abbrev pub is_negative : ℕ → Bool
is_negative bits = leb 2147483648 bits

-- `stringToIndex[key]`
unfoldable pub string_index : List Entry → Bytes → Option ℕ
string_index [] key = none
string_index (it ∷ entries) key =
    let rest = string_index entries key in if it.key == key then some it.index else rest

-- The sanity check of the debug build: `size < 2048`, of the signed size.
abbrev pub is_sane : Bool → ℕ → Bool
is_sane debug size = not debug || is_negative size || ltb size 2048

unfoldable pub write_string : Bool → List Entry → Bytes → Option Written
unfolding string_index
write_string debug table value = elim (string_index table value) [
  | some index ↦
      if not debug || is_negative index
      then some (record { bytes = put_uint 4 index; string_to_index = table })
      else none
  | none ↦
      if is_sane debug (length value % word32)
      then some (record {
        bytes = put_uint 4 (length value % word32) ++ value;
        string_to_index =
            table ++ record { key = value; index = negative (suc (length table)) } ∷ [];
      })
      else none
]

-- The bytes of a new string, through the page of 4096 bytes that the archive owns.
unfoldable pub read_new : Bool → ℕ → Reader → Option (Loaded Bytes)
read_new debug size r =
    if is_sane debug size && leb size 4096
    then Option.map (λ p. (p.0, record p.1 { index_to_string = p.1.index_to_string ++ p.0 ∷ [] }))
        (read_raw size r)
    else none

-- With a negative size, the place `-size-1` of `indexToString`.
unfoldable pub read_sized : Bool → ℕ → Reader → Option (Loaded Bytes)
unfolding read_new
read_sized debug size r =
    if is_negative size
    then Option.map (λ s. (s, r)) (get_elem? r.index_to_string (word32 - size - 1))
    else read_new debug size r

unfoldable pub read_string : Bool → Reader → Option (Loaded Bytes)
unfolding read_sized
read_string debug r = elim (read_raw 4 r) [ none ↦ none | some p ↦ read_sized debug (uint p.0) p.1 ]

abbrev pub string : Bool → Codec Bytes
string debug = record { write = write_string debug; read = read_string debug }

-- A hit is the place of the string, after `k` others.
string_index-indices :
    (k : ℕ) (strings : List Bytes) (value : Bytes) (index : ℕ)
    → string_index (indices k strings) value ≡ some index
    → k + length strings ≤ 2147483648
    → (i : ℕ) × (get_elem? strings i ≡ some value)
      × (index + k + i + 1 ≡ word32)
      × (i < length strings)
unfolding string_index
string_index-indices k [] value index p h = cc
string_index-indices k (s ∷ strings) value index p h = elim (Bool-cases (s == value)) [
  | inl e ↦ (0, ground (arith, ==_iff s value), ground arith, ground arith)
  | inr e ↦
      let (i, found, sum, small) =
        string_index-indices (suc k) strings value index (ground arith) (ground arith) in
      (suc i, found, ground arith, ground arith)
]

indices-append :
    (k : ℕ) (strings : List Bytes) (value : Bytes)
    → indices k (strings ++ value ∷ [])
      ≡ indices k strings
        ++ record { key = value; index = negative (suc (k + length strings)) } ∷ []
indices-append k [] value = ground arith
indices-append k (s ∷ strings) value = ground (arith, indices-append (suc k) strings value)

read_string-hit :
    (debug : Bool) (value : Bytes) (index i : ℕ) (strings : List Bytes) (rest : List ℕ)
    → get_elem? strings i ≡ some value
    → index + i + 1 ≡ word32
    → i < 2147483648
    → read_string debug (record { input = put_uint 4 index ++ rest; index_to_string = strings })
      ≡ some (value, record { input = rest; index_to_string = strings })
unfolding read_string read_sized
read_string-hit debug value index i strings rest found sum small =
    let place : word32 - index - 1 ≡ i = omega arith in
    ground (
      arith,
      read_raw-append 4 (put_uint 4 index) rest strings (length-put_uint 4 index),
      uint-put_uint 4 index (omega arith),
      place,
      found,
    )

read_string-new :
    (debug : Bool) (value : Bytes) (strings : List Bytes) (rest : List ℕ)
    → length value ≤ 4096
    → is_sane debug (length value % word32) ≡ true
    → read_string debug (record {
      input = (put_uint 4 (length value % word32) ++ value) ++ rest;
      index_to_string = strings;
    })
      ≡ some (value, record { input = rest; index_to_string = strings ++ value ∷ [] })
unfolding read_string read_sized read_new
read_string-new debug value strings rest h sane =
    let size = length value % word32 in
    ground (
      arith,
      append_assoc (put_uint 4 size) value rest,
      read_raw-append 4 (put_uint 4 size) (value ++ rest) strings (length-put_uint 4 size),
      uint-put_uint 4 size (omega arith),
      read_raw-append size value rest strings (omega arith),
    )

-- A string of at most 4096 bytes that was written is read back, as a string or as an index.
pub string-RoundTrips :
    (debug : Bool) (value : Bytes) → length value ≤ 4096 → RoundTrips (string debug) value
unfolding write_string
string-RoundTrips debug value h strings w p =
    elim (Option-cases (string_index (indices 0 strings) value)) [
      | inl e ↦ (
        strings ++ value ∷ [],
        ground (arith, indices-append 0 strings value, length-indices 0 strings),
        ground (arith, length-append strings (value ∷ [])),
        λ bound rest. ground (arith, read_string-new debug value strings rest h),
      )
      | inr (index, e) ↦ (
        strings,
        ground arith,
        ground arith,
        λ bound rest.
            let (i, found, sum, small) =
              string_index-indices 0 strings value index e (omega arith) in
            ground (
              arith,
              read_string-hit debug value index i strings rest found (omega arith) (omega arith),
            ),
      )
    ]

-- In an archive that recorded the strings given, after `w` was written for a string of at most 4096
-- bytes, with no more than `2 ^ 31` strings recorded then: reading gives that string, leaves what
-- follows, and the tables of the two archives agree again.
pub read_string-write_string :
    (debug : Bool) (value : Bytes) (strings : List Bytes) (w : Written) (rest : List ℕ)
    → length value ≤ 4096
    → write_string debug (indices 0 strings) value ≡ some w
    → length w.string_to_index ≤ 2147483648
    → (r : Reader) × (read_string debug
          (record { input = w.bytes ++ rest; index_to_string = strings })
        ≡ some (value, r))
      × (r.input ≡ rest)
      × (w.string_to_index ≡ indices 0 r.index_to_string)
read_string-write_string debug value strings w rest h p bound =
    ReadsAs-read (string debug) value value (string-RoundTrips debug value h) strings w rest p bound

-- A release build writes a new string of more than 4096 bytes and less than `2 ^ 31`, and the reader
-- panics on it, whatever it has read before.
pub long_string-unreadable :
    (value : Bytes) (table : List Entry) (strings : List Bytes) (rest : List ℕ)
    → string_index table value ≡ none
    → 4096 < length value
    → length value < 2147483648
    → (w : Written) × (write_string false table value ≡ some w)
      × (read_string false (record { input = w.bytes ++ rest; index_to_string = strings }) ≡ none)
unfolding write_string read_string read_sized read_new
long_string-unreadable value table strings rest missing long small =
    let size = length value % word32 in
    let exact : size ≡ length value = omega arith in
    (
      record {
        bytes = put_uint 4 size ++ value;
        string_to_index =
            table ++ record { key = value; index = negative (suc (length table)) } ∷ [];
      },
      ground arith,
      ground (
        arith,
        exact,
        append_assoc (put_uint 4 size) value rest,
        read_raw-append 4 (put_uint 4 size) (value ++ rest) strings (length-put_uint 4 size),
        uint-put_uint 4 size (omega arith),
      ),
    )

-- A release build writes every string.
pub string-Writes : (value : Bytes) → Writes (string false) value
unfolding write_string
string-Writes value table = elim (Option-cases (write_string false table value)) [
  | inl e ↦ absurd (ground (arith, Option-cases (string_index table value)))
  | inr (w, e) ↦ (w, e)
]
