-- ===== src/Archive/Runs.antt =====
-- Concrete runs of the archives, and their theorems at concrete inputs.
use ppb.Prelude.{
  Bytes, ◌≡◌, refl, ◌++◌, none, some, [], ◌∷◌, false, true, arith, replicate, list_comparable,
  nat_comparable,
}
use ppb.Archive.Bytes.{put_uint}
use ppb.Archive.Codec.{Written, Reader, indices}
use ppb.Archive.Text.{
  string_index, write_string, read_string, read_string-write_string, long_string-unreadable,
}

-- "core", and "file".
abbrev core : Bytes
core = 99 ∷ 111 ∷ 114 ∷ 101 ∷ []

abbrev file : Bytes
file = 102 ∷ 105 ∷ 108 ∷ 101 ∷ []

-- The second string of an archive is its index -2 when it comes again.
abbrev again : Written
again = record {
  bytes = 254 ∷ 255 ∷ 255 ∷ 255 ∷ [];
  string_to_index = indices 0 (core ∷ file ∷ []);
}

write_again : write_string true (indices 0 (core ∷ file ∷ [])) file ≡ some again
unfolding write_string string_index put_uint
write_again = refl

read_string-write_string_example :
    (r : Reader) × (read_string true
        (record { input = 254 ∷ 255 ∷ 255 ∷ 255 ∷ 7 ∷ []; index_to_string = core ∷ file ∷ [] })
      ≡ some (file, r))
    × (r.input ≡ 7 ∷ [])
    × (again.string_to_index ≡ indices 0 r.index_to_string)
read_string-write_string_example =
    read_string-write_string true file (core ∷ file ∷ []) again (7 ∷ []) (omega arith) write_again
      (omega arith)

abbrev long : Bytes
long = replicate 5000 0

long_string-unreadable_example :
    (w : Written) × (write_string false (indices 0 (core ∷ [])) long ≡ some w)
    × (read_string false (record { input = w.bytes ++ []; index_to_string = core ∷ [] }) ≡ none)
unfolding string_index
long_string-unreadable_example =
    long_string-unreadable long (indices 0 (core ∷ [])) (core ∷ []) [] refl (omega arith)
      (omega arith)
