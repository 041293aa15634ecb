-- ===== src/AutoComplete/Distance.antt =====
-- The matrix against the distance of the beginnings of two texts.
use ppb.Prelude.{
  is_ascii, ℕ, zero, suc, ◌+◌, ◌<◌, ◌≤◌, ◌≡◌, ap, true, ◌&&◌, [], ◌∷◌, Bytes, length, get_or, eqb,
  leb, ltb, if◌then◌else◌, arith,
}
use Prim.Native.Nat.{min}
use mathlib.Core.Path.{subst}
use ppb.Ufs.Ascii.{numbered, range_ascii}
use ppb.AutoComplete.{
  Matrix, set_cell, last_rune, number_of_runes, first_row, first_column, fill_row, fill_rows, fill,
  adjusted, score,
}

first_row_lem :
    (j count : ℕ) (m : Matrix) (a b : ℕ)
    → first_row j count m a b ≡ (if eqb a 0 && (leb j b && ltb b (j + count)) then b else m a b)
unfolding first_row
first_row_lem j zero m a b = ground arith
first_row_lem j (suc count) m a b =
    ground (arith, first_row_lem (suc j) count (set_cell m 0 j j) a b)

first_column_lem :
    (i count : ℕ) (m : Matrix) (a b : ℕ)
    → first_column i count m a b ≡ (if eqb b 0 && (leb i a && ltb a (i + count)) then a else m a b)
unfolding first_column
first_column_lem i zero m a b = ground arith
first_column_lem i (suc count) m a b =
    ground (arith, first_column_lem (suc i) count (set_cell m i 0 i) a b)

last_rune-numbered : (n i c : ℕ) (s : Bytes) → last_rune n (numbered i (c ∷ s)) ≡ i + length s
last_rune-numbered n i c [] = ground arith
last_rune-numbered n i c (d ∷ s) = ground (arith, last_rune-numbered i (i + 1) d s)

pub number_of_runes_ascii :
    (c : ℕ) (s : Bytes) → is_ascii (c ∷ s) ≡ true → number_of_runes (c ∷ s) ≡ suc (length s)
unfolding number_of_runes
number_of_runes_ascii c s h = rw (range_ascii (c ∷ s) h, last_rune-numbered 0 0 c s) (omega arith)

module _ (upper : ℕ → ℕ) (input candidate : Bytes) where
  -- The fewest insertions, deletions and substitutions between the first `a` runes of the candidate, in
  -- upper case, and the first `b` of the input.
  pub distance : (a b : ℕ) → ℕ
  distance zero b = b
  distance (suc a) zero = suc a
  distance (suc a) (suc b) =
      min (min (distance a (suc b) + 1) (distance (suc a) b + 1))
        (distance a b + (if eqb (upper (get_or candidate a 0)) (get_or input b 0) then 0 else 1))

  -- The rows up to the row `i` are right, and the next one up to the column `j`.
  record At (i j : ℕ) (m : Matrix) : Type 0 where
    rows : (a b : ℕ) → a ≤ i → b ≤ length input → m a b ≡ distance a b
    row : (b : ℕ) → b ≤ j → m (suc i) b ≡ distance (suc i) b
    column : (a : ℕ) → a ≤ length candidate → m a 0 ≡ a

  set_cell-At :
      (i j : ℕ) (m : Matrix)
      → At i j m
      → j < length input
      → At i (j + 1) (
          set_cell m (i + 1) (j + 1) (
            min
              (min (m i (j + 1) + 1) (m (i + 1) j + 1))
              (m i j + (if eqb (upper (get_or candidate i 0)) (get_or input j 0) then 0 else 1))))
  unfolding distance
  set_cell-At i j m at lt = record {
    rows = λ a b la lb. ground (arith, at.rows a b);
    row = λ b lb. ground (arith, at.row b, at.rows i (suc j), at.row j, at.rows i j);
    column = λ a la. ground (arith, at.column a);
  }

  fill_row-At :
      (i j : ℕ) (rest : Bytes) (m : Matrix)
      → At i j m
      → j + length rest ≡ length input
      → ((k : ℕ) → get_or rest k 0 ≡ get_or input (j + k) 0)
      → At i (length input) (fill_row i (upper (get_or candidate i 0)) (numbered j rest) m)
  unfolding fill_row
  fill_row-At i j [] m at e same =
      let end : j ≡ length input = omega (arith, e) in subst (λ l. At i l m) end at
  fill_row-At i j (c ∷ rest) m at e same =
      let seen : c ≡ get_or input j 0 = ground (arith, same 0) in
      rw seen (
        fill_row-At i (j + 1) rest _ (set_cell-At i j m at (omega (arith, e))) (omega (arith, e))
          (λ k. ground (arith, same (suc k))))

  -- The rows up to the row `i` are right.
  record Rows (i : ℕ) (m : Matrix) : Type 0 where
    rows : (a b : ℕ) → a ≤ i → b ≤ length input → m a b ≡ distance a b
    column : (a : ℕ) → a ≤ length candidate → m a 0 ≡ a

  line_start : (i : ℕ) (m : Matrix) → Rows i m → i < length candidate → At i 0 m
  unfolding distance
  line_start i m r lt = record {
    rows = r.rows;
    row = λ b lb. ground (arith, r.column (suc i));
    column = r.column;
  }

  line_end : (i : ℕ) (m : Matrix) → At i (length input) m → Rows (i + 1) m
  line_end i m at = record {
    rows = λ a b la lb. ground (arith, at.rows a b, at.row b);
    column = at.column;
  }

  fill_rows-Rows :
      (i : ℕ) (rest : Bytes) (m : Matrix)
      → Rows i m
      → i + length rest ≡ length candidate
      → ((k : ℕ) → get_or rest k 0 ≡ get_or candidate (i + k) 0)
      → Rows (length candidate) (fill_rows upper (numbered i rest) (numbered 0 input) m)
  unfolding fill_rows
  fill_rows-Rows i [] m r e same =
      let end : i ≡ length candidate = omega (arith, e) in subst (λ l. Rows l m) end r
  fill_rows-Rows i (c ∷ rest) m r e same =
      let seen : c ≡ get_or candidate i 0 = ground (arith, same 0) in
      let at : At i (length input)
          (fill_row i (upper (get_or candidate i 0)) (numbered 0 input) m) =
        fill_row-At i 0 input m (line_start i m r (omega (arith, e))) (omega arith)
          (λ k. ground arith) in
      rw seen (
        fill_rows-Rows (i + 1) rest _ (line_end i _ at) (omega (arith, e))
          (λ k. ground (arith, same (suc k))))

  fresh_start :
      (m : Matrix) → Rows 0 (first_column 1 (length candidate) (first_row 0 (length input + 1) m))
  unfolding distance
  fresh_start m =
      let top = first_row 0 (length input + 1) m in
      record {
        rows = λ a b la lb. ground (
          arith,
          first_column_lem 1 (length candidate) top a b,
          first_row_lem 0 (length input + 1) m a b,
        );
        column = λ a la. ground (
          arith,
          first_column_lem 1 (length candidate) top a 0,
          first_row_lem 0 (length input + 1) m a 0,
        );
      }

-- For an ASCII input and an ASCII candidate, both of at least one rune: whatever the matrix held before,
-- the score is made from the distance between the candidate, in upper case, and the input.
pub score-distance :
    (upper : ℕ → ℕ) (i : ℕ) (input : Bytes) (c : ℕ) (candidate : Bytes) (m : Matrix)
    → is_ascii (i ∷ input) ≡ true
    → is_ascii (c ∷ candidate) ≡ true
    → score upper (i ∷ input) (c ∷ candidate) m
      ≡ adjusted
          (distance upper (i ∷ input) (c ∷ candidate) (suc (length candidate)) (suc (length input)))
          (suc (length candidate))
          (suc (length input))
unfolding score fill
score-distance upper i input c candidate m h h' =
    let n = number_of_runes_ascii i input h in
    let l = number_of_runes_ascii c candidate h' in
    let done =
      fill_rows-Rows upper (i ∷ input) (c ∷ candidate) 0 (c ∷ candidate) _
        (fresh_start upper (i ∷ input) (c ∷ candidate) m) (omega arith) (λ k. ground arith) in
    rw (n, l, range_ascii (i ∷ input) h, range_ascii (c ∷ candidate) h')
      (ap (λ d. adjusted d (suc (length candidate)) (suc (length input)))
        (done.rows (suc (length candidate)) (suc (length input)) (omega arith) (omega arith)))
