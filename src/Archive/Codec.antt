-- ===== src/Archive/Codec.antt =====
-- A `Serialize` method on the two archives of internal/base/Archive.go: what it does to the writer,
-- and what it does to the reader. `none` is a panic: a failed assertion, an error of the reader
-- without a handler and without `AR_FLAGS_TOLERANT`, or an index out of range.
use ppb.Prelude.{
  ℕ, suc, ◌-◌, ◌%◌, ◌≤◌, ◌≡◌, refl, ap, Option, none, some, List, [], ◌∷◌, ◌++◌, length,
  length-append, take, drop, arith, Bytes, if◌then◌else◌, leb,
}
use ppb.Archive.Bytes.{take-append, drop-append}

-- An entry of `stringToIndex`. The index is an `int32`, by its bits.
pub record Entry : Type 0 where
  pub key : Bytes
  pub index : ℕ

-- What a write leaves: the bytes that it adds to the output, and `stringToIndex`, the latest entry
-- last.
pub record Written : Type 0 where
  pub bytes : List ℕ
  pub string_to_index : List Entry

-- `ArchiveBinaryReader`: the bytes that are left, and `indexToString`.
pub record Reader : Type 0 where
  pub input : List ℕ
  pub index_to_string : List Bytes

-- A value that was read, and the reader after it.
abbrev pub Loaded : Type 0 → Type 0
Loaded A = A × Reader

pub record Codec (A : Type 0) : Type 0 where
  pub write : List Entry → A → Option Written
  pub read : Reader → Option (Loaded A)

-- `2 ^ 32`
abbrev pub word32 : ℕ
word32 = 4294967296

-- The bits of `int32(-n)`.
abbrev pub negative : ℕ → ℕ
negative n = (word32 - n % word32) % word32

-- The table of a writer that recorded these strings, in their order, after `k` others.
abbrev pub indices : ℕ → List Bytes → List Entry
indices k [] = []
indices k (s ∷ strings) = record { key = s; index = negative (suc k) } ∷ indices (suc k) strings

-- `Raw` of the reader: that many bytes of the input.
unfoldable pub read_raw : ℕ → Reader → Option (Loaded (List ℕ))
read_raw n r =
    if leb n (length r.input)
    then some (take n r.input, record r { input = drop n r.input })
    else none

-- The value can be written, whatever was written before.
abbrev pub Writes : {A : Type 0} → Codec A → A → Type 0
Writes codec a = (table : List Entry) → (w : Written) × (codec.write table a ≡ some w)

-- What is written of `a` is read as `b`, with anything after it, and the two archives agree on the
-- strings again. The index of a string has 31 bits.
abbrev pub ReadsAs : {A : Type 0} → Codec A → A → A → Type 0
ReadsAs {A} codec a b =
    (strings : List Bytes) (w : Written)
    → codec.write (indices 0 strings) a ≡ some w
    → (strings' : List Bytes) × (w.string_to_index ≡ indices 0 strings')
      × (length strings ≤ length strings')
      × (length strings' ≤ 2147483648
          → (rest : List ℕ)
          → codec.read (record { input = w.bytes ++ rest; index_to_string = strings })
            ≡ some (b, record { input = rest; index_to_string = strings' }))

-- What is written can be read back.
abbrev pub RoundTrips : {A : Type 0} → Codec A → A → Type 0
RoundTrips codec a = ReadsAs codec a a

pub read_raw-append :
    (n : ℕ) (bytes rest : List ℕ) (strings : List Bytes)
    → length bytes ≡ n
    → read_raw n (record { input = bytes ++ rest; index_to_string = strings })
      ≡ some (bytes, record { input = rest; index_to_string = strings })
unfolding read_raw
read_raw-append n bytes rest strings h =
    rw (← h)
      (ground (arith, length-append bytes rest, take-append bytes rest, drop-append bytes rest))

pub length-indices : (k : ℕ) (strings : List Bytes) → length (indices k strings) ≡ length strings
length-indices k [] = refl
length-indices k (s ∷ strings) = omega (arith, length-indices (suc k) strings)

-- The same for one write and the read of it.
pub ReadsAs-read :
    {A : Type 0} (codec : Codec A) (a b : A)
    → ReadsAs codec a b
    → (strings : List Bytes) (w : Written) (rest : List ℕ)
    → codec.write (indices 0 strings) a ≡ some w
    → length w.string_to_index ≤ 2147483648
    → (r : Reader) × (codec.read (record { input = w.bytes ++ rest; index_to_string = strings })
        ≡ some (b, r))
      × (r.input ≡ rest)
      × (w.string_to_index ≡ indices 0 r.index_to_string)
ReadsAs-read codec a b h strings w rest p bound =
    let (strings', t, l, r) = h strings w p in
    let small : length strings' ≤ 2147483648 =
      omega (arith, length-indices 0 strings', ap length t, bound) in
    (record { input = rest; index_to_string = strings' }, r small rest, refl, t)
