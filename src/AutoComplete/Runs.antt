-- ===== src/AutoComplete/Runs.antt =====
-- Scores of ASCII texts, with letters as they are, and of a text with a rune of two bytes.
use ppb.Prelude.{ℕ, ◌+◌, ◌≡◌, refl, [], ◌∷◌, Bytes}
use ppb.Ufs.Runes.{range}
use ppb.AutoComplete.{
  Matrix, number_of_runes, first_row, first_column, fill_row, fill_rows, fill, adjusted, score,
}
use ppb.AutoComplete.Distance.{distance, score-distance}

abbrev same : ℕ → ℕ
same r = r

-- What an earlier score left.
abbrev used : Matrix
used a b = a + b + 7

-- "ABC" and "ADBC"
score-distance_example :
    score same (b'A' ∷ b'B' ∷ b'C' ∷ []) (b'A' ∷ b'D' ∷ b'B' ∷ b'C' ∷ []) used
    ≡ adjusted (distance same (b'A' ∷ b'B' ∷ b'C' ∷ []) (b'A' ∷ b'D' ∷ b'B' ∷ b'C' ∷ []) 4 3) 4 3
score-distance_example =
    score-distance same b'A' (b'B' ∷ b'C' ∷ []) b'A' (b'D' ∷ b'B' ∷ b'C' ∷ []) used refl refl

score_run : score same (b'A' ∷ b'B' ∷ b'C' ∷ []) (b'A' ∷ b'D' ∷ b'B' ∷ b'C' ∷ []) used ≡ 1
unfolding score fill fill_rows fill_row first_row first_column adjusted number_of_runes range
score_run = refl

-- The empty text has a rune.
no_runes : number_of_runes [] ≡ 1
unfolding number_of_runes range
no_runes = refl

-- "ÉA": the score of the text for itself is not 0 once the matrix was used.
abbrev accent : Bytes
accent = 195 ∷ 137 ∷ b'A' ∷ []

stale_cells : score same accent accent used ≡ 22
unfolding score fill fill_rows fill_row first_row first_column adjusted number_of_runes range
stale_cells = refl
