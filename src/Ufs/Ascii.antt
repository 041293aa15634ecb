-- ===== src/Ufs/Ascii.antt =====
-- ASCII texts: their runes are their bytes.
use ppb.Prelude.{
  ℕ, ◌+◌, ◌≡◌, refl, Bool, true, ◌&&◌, not, none, some, List, [], ◌∷◌, ◌++◌, Bytes, is_ascii,
  length, ltb, arith,
}
use ppb.Ufs.Runes.{decode_rune, range_from, range}
use ppb.Ufs.{is_path_separator, first_in, first_index_of_path_separator}

pub is_ascii-append : (s t : Bytes) → is_ascii (s ++ t) ≡ (is_ascii s && is_ascii t)
is_ascii-append [] t = refl
is_ascii-append (c ∷ s) t = ground (arith, is_ascii-append s t)

-- The bytes with their indices, from the index `i` on.
abbrev pub numbered : ℕ → Bytes → List (ℕ × ℕ)
numbered i [] = []
numbered i (c ∷ s) = (i, c) ∷ numbered (i + 1) s

decode_ascii : (c : ℕ) (s : Bytes) → ltb c 128 ≡ true → decode_rune (c ∷ s) ≡ (c, 1)
unfolding decode_rune
decode_ascii c s h = rw h

range_from_ascii : (i : ℕ) (s : Bytes) → is_ascii s ≡ true → range_from i 0 s ≡ numbered i s
unfolding range_from
range_from_ascii i [] h = refl
range_from_ascii i (c ∷ s) h =
    rw (decode_ascii c s (ground arith), range_from_ascii (i + 1) s (ground arith))

pub range_ascii : (s : Bytes) → is_ascii s ≡ true → range s ≡ numbered 0 s
unfolding range
range_ascii s h = range_from_ascii 0 s h

-- A text without separators.
abbrev pub is_plain : Bytes → Bool
is_plain [] = true
is_plain (c ∷ s) = not (is_path_separator c) && is_plain s

first_in_piece :
    (k : ℕ) (p rest : Bytes)
    → is_ascii p ≡ true
    → is_plain p ≡ true
    → first_in (numbered k (p ++ b'/' ∷ rest)) ≡ some (k + length p)
unfolding first_in
first_in_piece k [] rest a h = ground arith
first_in_piece k (c ∷ p) rest a h = ground (arith, first_in_piece (k + 1) p rest)

first_in_last :
    (k : ℕ) (p : Bytes) → is_ascii p ≡ true → is_plain p ≡ true → first_in (numbered k p) ≡ none
unfolding first_in
first_in_last k [] a h = refl
first_in_last k (c ∷ p) a h = ground (arith, first_in_last (k + 1) p)

pub first_index_piece :
    (p rest : Bytes)
    → is_ascii (p ++ b'/' ∷ rest) ≡ true
    → is_plain p ≡ true
    → first_index_of_path_separator (p ++ b'/' ∷ rest) ≡ some (length p)
unfolding first_index_of_path_separator
first_index_piece p rest a h =
    rw (range_ascii (p ++ b'/' ∷ rest) a)
      (ground (arith, is_ascii-append p (b'/' ∷ rest), first_in_piece 0 p rest))

pub first_index_last :
    (p : Bytes) → is_ascii p ≡ true → is_plain p ≡ true → first_index_of_path_separator p ≡ none
unfolding first_index_of_path_separator
first_index_last p a h = rw (range_ascii p a, first_in_last 0 p a h)
