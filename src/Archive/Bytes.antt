-- ===== src/Archive/Bytes.antt =====
-- `binary.LittleEndian` as internal/base/Archive.go uses it: numbers as their bytes, lowest first.
use ppb.Prelude.{
  ℕ, zero, suc, ◌+◌, ◌*◌, ◌/◌, ◌%◌, ◌<◌, ◌≡◌, refl, ap, List, [], ◌∷◌, ◌++◌, length, take, drop,
  arith,
}

-- `PutUint32` for a width of 4, `PutUint64` for one of 8.
unfoldable pub put_uint : ℕ → ℕ → List ℕ
put_uint zero n = []
put_uint (suc width) n = n % 256 ∷ put_uint width (n / 256)

-- `Uint32` and `Uint64`, on as many bytes as there are.
unfoldable pub uint : List ℕ → ℕ
uint [] = 0
uint (b ∷ bytes) = b + 256 * uint bytes

-- 256 to the power of a width.
abbrev pub limit : ℕ → ℕ
limit zero = 1
limit (suc width) = 256 * limit width

pub uint-put_uint : (width n : ℕ) → n < limit width → uint (put_uint width n) ≡ n
unfolding uint put_uint
uint-put_uint zero n h = omega arith
uint-put_uint (suc width) n h = omega (arith, uint-put_uint width (n / 256) (omega arith))

pub length-put_uint : (width n : ℕ) → length (put_uint width n) ≡ width
unfolding put_uint
length-put_uint zero n = refl
length-put_uint (suc width) n = omega (arith, length-put_uint width (n / 256))

pub take-append {ℓ} : {A : Type ℓ} (xs ys : List A) → take (length xs) (xs ++ ys) ≡ xs
take-append [] ys = refl
take-append (x ∷ xs) ys = ap (λ zs. x ∷ zs) (take-append xs ys)

pub drop-append {ℓ} : {A : Type ℓ} (xs ys : List A) → drop (length xs) (xs ++ ys) ≡ ys
drop-append [] ys = refl
drop-append (x ∷ xs) ys = drop-append xs ys
