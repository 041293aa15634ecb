-- ===== src/Containers/Hash.antt =====
-- `Fnv1a` of internal/base/Containers.go. A string is the list of its bytes.
use Prim.Native.Nat.{bit_xor}
use ppb.Prelude.{ℕ, ◌*◌, ◌%◌, ◌^◌, ◌≡◌, refl, List, [], ◌∷◌, foldl}

abbrev prime64 : ℕ
prime64 = 1099511628211

-- `(h ^ uint64(c)) * prime64` on 64 bits.
unfoldable pub mix : ℕ → ℕ → ℕ
mix h c = bit_xor h c * prime64 % 2 ^ 64

-- `if len(s) > 0`
last_byte : ℕ → List ℕ → ℕ
last_byte h [] = h
last_byte h (c ∷ s) = mix h c

-- `if len(s) >= 2`
two_bytes : ℕ → List ℕ → ℕ
unfolding last_byte
two_bytes h (c0 ∷ c1 ∷ s) = last_byte (mix (mix h c0) c1) s
two_bytes h s = last_byte h s

-- `if len(s) >= 4`
four_bytes : ℕ → List ℕ → ℕ
unfolding two_bytes
four_bytes h (c0 ∷ c1 ∷ c2 ∷ c3 ∷ s) = two_bytes (mix (mix (mix (mix h c0) c1) c2) c3) s
four_bytes h s = two_bytes h s

-- `for len(s) >= 8`, and what follows the loop.
eight_bytes : ℕ → List ℕ → ℕ
unfolding four_bytes
eight_bytes h (c0 ∷ c1 ∷ c2 ∷ c3 ∷ c4 ∷ c5 ∷ c6 ∷ c7 ∷ s) =
    eight_bytes (mix (mix (mix (mix (mix (mix (mix (mix h c0) c1) c2) c3) c4) c5) c6) c7) s
eight_bytes h s = four_bytes h s

unfoldable pub fnv1a : List ℕ → ℕ → ℕ
unfolding eight_bytes
fnv1a s basis = eight_bytes basis s

eight_bytes-foldl : (h : ℕ) (s : List ℕ) → eight_bytes h s ≡ foldl mix h s
unfolding eight_bytes
eight_bytes-foldl h (c0 ∷ c1 ∷ c2 ∷ c3 ∷ c4 ∷ c5 ∷ c6 ∷ c7 ∷ s) =
    eight_bytes-foldl (mix (mix (mix (mix (mix (mix (mix (mix h c0) c1) c2) c3) c4) c5) c6) c7) s
eight_bytes-foldl h s = refl

-- The unrolled hash is the plain loop over the bytes.
pub fnv1a-foldl : (s : List ℕ) (basis : ℕ) → fnv1a s basis ≡ foldl mix basis s
unfolding fnv1a
fnv1a-foldl s basis = eight_bytes-foldl basis s
