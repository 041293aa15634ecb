-- ===== src/AutoComplete.antt =====
-- `LevenshteinDistance` of internal/base/AutoComplete.go. The matrix that is kept from one score to the
-- next is a function of row and column: the code never leaves the rows and columns that it made.
pub mod Distance
mod Runs
use ppb.Prelude.{
  ℕ, zero, suc, ◌+◌, ◌-◌, ◌*◌, ◌<◌, ◌≤◌, ◌≡◌, Bool, ◌&&◌, List, [], ◌∷◌, Bytes, eqb, if◌then◌else◌,
}
use ppb.Ufs.Runes.{range}
use Prim.Native.Nat.{min}

abbrev pub Matrix : Type 0
Matrix = ℕ → ℕ → ℕ

abbrev pub set_cell : Matrix → ℕ → ℕ → ℕ → Matrix
set_cell m i j v a b = if eqb a i && eqb b j then v else m a b

-- The loop of `numberOfRunes`, with the index of the last rune so far.
abbrev pub last_rune : ℕ → List (ℕ × ℕ) → ℕ
last_rune n [] = n
last_rune n ((i, ch) ∷ runes) = last_rune i runes

unfoldable pub number_of_runes : Bytes → ℕ
number_of_runes in_ = last_rune 0 (range in_) + 1

-- The first row, from the column `j` on, `count` columns.
unfoldable pub first_row : ℕ → ℕ → Matrix → Matrix
first_row j zero m = m
first_row j (suc count) m = first_row (suc j) count (set_cell m 0 j j)

-- The first column, from the row `i` on, `count` rows.
unfoldable pub first_column : ℕ → ℕ → Matrix → Matrix
first_column i zero m = m
first_column i (suc count) m = first_column (suc i) count (set_cell m i 0 i)

-- The columns of one row: `ich` is the rune of the candidate, in upper case.
unfoldable pub fill_row : ℕ → ℕ → List (ℕ × ℕ) → Matrix → Matrix
fill_row i ich [] m = m
fill_row i ich ((j, jch) ∷ input) m =
    let cost = if eqb ich jch then 0 else 1 in
    fill_row i ich input
      (set_cell m (i + 1) (j + 1) (min (min (m i (j + 1) + 1) (m (i + 1) j + 1)) (m i j + cost)))

-- `upper` is `unicode.ToUpper`.
unfoldable pub fill_rows : (ℕ → ℕ) → List (ℕ × ℕ) → List (ℕ × ℕ) → Matrix → Matrix
fill_rows upper [] input m = m
fill_rows upper ((i, ich) ∷ candidate) input m =
    fill_rows upper candidate input (fill_row i (upper ich) input m)

-- The matrix after the loops of `Score`.
unfoldable pub fill : (ℕ → ℕ) → (input candidate : Bytes) → Matrix → Matrix
fill upper input candidate m =
    fill_rows upper (range candidate) (range input)
      (first_column 1 (number_of_runes candidate) (first_row 0 (number_of_runes input + 1) m))

-- The end of `Score`, where the difference stops at 0.
unfoldable pub adjusted : (cell c n : ℕ) → ℕ
adjusted cell c n = cell * 2 - (c - n) - (n - c)

unfoldable pub score : (ℕ → ℕ) → (input candidate : Bytes) → Matrix → ℕ
score upper input candidate m =
    let n = number_of_runes input in
    let c = number_of_runes candidate in adjusted (fill upper input candidate m c n) c n
