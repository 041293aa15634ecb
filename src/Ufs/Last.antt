-- ===== src/Ufs/Last.antt =====
-- The last separator of an ASCII path.
use ppb.Prelude.{
  is_ascii, ℕ, zero, suc, ◌+◌, ◌-◌, ◌≡◌, refl, true, false, none, some, Option, [], ◌∷◌, ◌++◌,
  Bytes, length, length-append, get_or, arith,
}
use mathlib.Core.List.{map}
use ppb.Ufs.{is_path_separator, last_in, last_index_of_path_separator}
use ppb.Ufs.Ascii.{is_plain, numbered, range_ascii}

-- The search from the place below `m` on, downwards.
abbrev scan_down : Bytes → ℕ → Option ℕ
scan_down s zero = none
scan_down s (suc m) = elim (is_path_separator (get_or s m 0)) [
  | true ↦ some m
  | false ↦ scan_down s m
]

-- `i` bytes have been seen, and those of `rest` are left.
last_in-scan_down :
    (s : Bytes) (i m : ℕ) (rest : Bytes)
    → length rest ≡ m
    → i + m ≡ length s
    → last_in s (length s - 1) (map (λ r. r.0) (numbered i rest)) ≡ scan_down s m
unfolding last_in
last_in-scan_down s i zero [] e h = refl
last_in-scan_down s i (suc m) (c ∷ rest) e h =
    let place : length s - 1 - i ≡ m = omega arith in
    ground (arith, place, last_in-scan_down s (i + 1) m rest)
last_in-scan_down s i zero (c ∷ rest) e h = absurd (omega arith)
last_in-scan_down s i (suc m) [] e h = absurd (omega arith)

-- The bytes of a plain text are no separators, and neither is what stands beyond its end.
get_or-IsPlain : (s : Bytes) (i : ℕ) → is_plain s ≡ true → is_path_separator (get_or s i 0) ≡ false
get_or-IsPlain [] i h = refl
get_or-IsPlain (c ∷ s) zero h = ground arith
get_or-IsPlain (c ∷ s) (suc i) h = get_or-IsPlain s i (ground arith)

get_or-beyond :
    (p : Bytes) (c : ℕ) (q : Bytes) (i k : ℕ)
    → k ≡ length p + suc i
    → get_or (p ++ c ∷ q) k 0 ≡ get_or q i 0
get_or-beyond [] c q i zero e = absurd (omega arith)
get_or-beyond [] c q i (suc k) e = ground arith
get_or-beyond (d ∷ p) c q i zero e = absurd (omega arith)
get_or-beyond (d ∷ p) c q i (suc k) e = get_or-beyond p c q i k (omega arith)

get_or-middle : (p : Bytes) (c : ℕ) (q : Bytes) → get_or (p ++ c ∷ q) (length p) 0 ≡ c
get_or-middle [] c q = refl
get_or-middle (d ∷ p) c q = get_or-middle p c q

scan_down-found :
    (p q : Bytes) (m j : ℕ)
    → m ≡ length p + suc j
    → is_plain q ≡ true
    → scan_down (p ++ b'/' ∷ q) m ≡ some (length p)
scan_down-found p q zero j e h = absurd (omega arith)
scan_down-found p q (suc m) zero e h =
    let place : m ≡ length p = omega arith in rw place (ground (arith, get_or-middle p b'/' q))
scan_down-found p q (suc m) (suc j) e h =
    ground (arith, get_or-beyond p b'/' q j m, get_or-IsPlain q j, scan_down-found p q m j)

-- The last separator of a path is found where its name begins.
pub last_index_found :
    (p q : Bytes)
    → is_ascii (p ++ b'/' ∷ q) ≡ true
    → is_plain q ≡ true
    → last_index_of_path_separator (p ++ b'/' ∷ q) ≡ some (length p)
unfolding last_index_of_path_separator
last_index_found p q a h =
    let s = p ++ b'/' ∷ q in
    rw (range_ascii s a, last_in-scan_down s 0 (length s) s refl (omega arith))
      (scan_down-found p q (length s) (length q) (length-append p (b'/' ∷ q)) h)

scan_down-none : (s : Bytes) (m : ℕ) → is_plain s ≡ true → scan_down s m ≡ none
scan_down-none s zero h = refl
scan_down-none s (suc m) h = ground (arith, get_or-IsPlain s m, scan_down-none s m)

pub last_index_none :
    (s : Bytes) → is_ascii s ≡ true → is_plain s ≡ true → last_index_of_path_separator s ≡ none
unfolding last_index_of_path_separator
last_index_none s a h =
    rw (range_ascii s a, last_in-scan_down s 0 (length s) s refl (omega arith))
      (scan_down-none s (length s) h)
