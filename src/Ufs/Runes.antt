-- ===== src/Ufs/Runes.antt =====
-- The runes of a Go string, as a `for` loop over the string goes through them.
use ppb.Prelude.{
  ℕ, zero, suc, ◌+◌, ◌-◌, ◌*◌, ◌/◌, ◌%◌, Bool, ◌&&◌, List, [], ◌∷◌, Bytes, eqb, leb, ltb, get_or,
  if◌then◌else◌,
}

abbrev between : ℕ → ℕ → ℕ → Bool
between a b c = leb a c && leb c b

-- A byte that continues a rune.
abbrev follows : ℕ → Bool
follows c = between 128 191 c

-- The second byte, after the first byte `a` of a rune of three or four.
abbrev second_fits : ℕ → ℕ → Bool
second_fits a b =
    between (if eqb a 224 then 160 else if eqb a 240 then 144 else 128)
      (if eqb a 237 then 159 else if eqb a 244 then 143 else 191) b

-- The rune that begins with the bytes, and its width: U+FFFD and 1 for bytes that are no UTF-8.
unfoldable pub decode_rune : Bytes → ℕ × ℕ
decode_rune s =
    let a = get_or s 0 0 in
    let b = get_or s 1 0 in
    let c = get_or s 2 0 in
    let d = get_or s 3 0 in
    if ltb a 128
    then (a, 1)
    else if between 194 223 a && follows b
    then ((a - 192) * 64 + (b - 128), 2)
    else if between 224 239 a && (second_fits a b && follows c)
    then ((a - 224) * 4096 + (b - 128) * 64 + (c - 128), 3)
    else if between 240 244 a && (second_fits a b && (follows c && follows d))
    then ((a - 240) * 262144 + (b - 128) * 4096 + (c - 128) * 64 + (d - 128), 4)
    else (65533, 1)

-- The runes with their indices, from the index `i` on; the next `skip` bytes belong to the last rune.
unfoldable pub range_from : (i skip : ℕ) → Bytes → List (ℕ × ℕ)
unfolding decode_rune
range_from i skip [] = []
range_from i (suc skip) (c ∷ s) = range_from (i + 1) skip s
range_from i zero (c ∷ s) =
    let (rune, width) = decode_rune (c ∷ s) in (i, rune) ∷ range_from (i + 1) (width - 1) s

unfoldable pub range : Bytes → List (ℕ × ℕ)
unfolding range_from
range s = range_from 0 0 s

-- The bytes of a rune.
unfoldable pub encode_rune : ℕ → Bytes
encode_rune r =
    if ltb r 128
    then r ∷ []
    else if ltb r 2048
    then (192 + r / 64) ∷ (128 + r % 64) ∷ []
    else if ltb r 65536
    then (224 + r / 4096) ∷ (128 + r / 64 % 64) ∷ (128 + r % 64) ∷ []
    else (240 + r / 262144) ∷ (128 + r / 4096 % 64) ∷ (128 + r / 64 % 64) ∷ (128 + r % 64) ∷ []
