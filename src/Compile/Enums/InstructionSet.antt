-- ===== src/Compile/Enums/InstructionSet.antt =====
-- `InstructionSet` of compile/Enums.go.
use ppb.Prelude.{
  ◌≡◌, refl, ◌↔◌, Bool, true, false, Option, some, List, [], ◌∷◌, map, Bytes, is_ascii, elem, ℕ,
  ◌%◌, ◌<◌, arith, nat_comparable, list_comparable,
}
use ppb.Switch.{codes, to_upper, first_case, first_case_iff, nth_constant}

pub data InstructionSet : Type 0 where
  instructionset_inherit instructionset_aes instructionset_avx instructionset_avx2
        instructionset_avx512 instructionset_sse2 instructionset_sse3 instructionset_sse4_1
        instructionset_sse4_2 instructionset_sse4_a :
      InstructionSet

abbrev pub all_instruction_sets : List InstructionSet
all_instruction_sets =
    instructionset_inherit ∷ instructionset_aes ∷ instructionset_avx ∷ instructionset_avx2
    ∷ instructionset_avx512 ∷ instructionset_sse2 ∷ instructionset_sse3 ∷ instructionset_sse4_1
    ∷ instructionset_sse4_2 ∷ instructionset_sse4_a ∷ []

unfoldable pub ord : InstructionSet → ℕ
ord instructionset_inherit = 0
ord instructionset_aes = 1
ord instructionset_avx = 2
ord instructionset_avx2 = 3
ord instructionset_avx512 = 4
ord instructionset_sse2 = 5
ord instructionset_sse3 = 6
ord instructionset_sse4_1 = 7
ord instructionset_sse4_2 = 8
ord instructionset_sse4_a = 9

-- The conversion to `byte`. `none` is a value that is no constant.
unfoldable pub from_ord : ℕ → Option InstructionSet
unfolding nth_constant
from_ord v = nth_constant all_instruction_sets (v % 256)

pub from_ord-ord : (x : InstructionSet) → from_ord (ord x) ≡ some x
unfolding from_ord ord nth_constant
from_ord-ord instructionset_inherit = refl
from_ord-ord instructionset_aes = refl
from_ord-ord instructionset_avx = refl
from_ord-ord instructionset_avx2 = refl
from_ord-ord instructionset_avx512 = refl
from_ord-ord instructionset_sse2 = refl
from_ord-ord instructionset_sse3 = refl
from_ord-ord instructionset_sse4_1 = refl
from_ord-ord instructionset_sse4_2 = refl
from_ord-ord instructionset_sse4_a = refl

pub ord_lt : (x : InstructionSet) → ord x < 32
unfolding ord
ord_lt instructionset_inherit = omega arith
ord_lt instructionset_aes = omega arith
ord_lt instructionset_avx = omega arith
ord_lt instructionset_avx2 = omega arith
ord_lt instructionset_avx512 = omega arith
ord_lt instructionset_sse2 = omega arith
ord_lt instructionset_sse3 = omega arith
ord_lt instructionset_sse4_1 = omega arith
ord_lt instructionset_sse4_2 = omega arith
ord_lt instructionset_sse4_a = omega arith

unfoldable pub description : InstructionSet → Bytes
description instructionset_inherit = codes "inherit from parent's value"
description instructionset_aes = codes "Advanced Encryption Standard"
description instructionset_avx = codes "Advanced Vector Extensions"
description instructionset_avx2 = codes "Advanced Vector Extensions 2"
description instructionset_avx512 = codes "Advanced Vector Extensions 512"
description instructionset_sse2 = codes "Streaming SIMD Extensions 2"
description instructionset_sse3 = codes "Streaming SIMD Extensions 3"
description instructionset_sse4_1 = codes "Streaming SIMD Extensions 4.1"
description instructionset_sse4_2 = codes "Streaming SIMD Extensions 4.2"
description instructionset_sse4_a = codes "Streaming SIMD Extensions 4a"

unfoldable pub string : InstructionSet → Bytes
string instructionset_inherit = codes "INHERIT"
string instructionset_aes = codes "AES"
string instructionset_avx = codes "AVX"
string instructionset_avx2 = codes "AVX2"
string instructionset_avx512 = codes "AVX512"
string instructionset_sse2 = codes "SSE2"
string instructionset_sse3 = codes "SSE3"
string instructionset_sse4_1 = codes "SSE4_1"
string instructionset_sse4_2 = codes "SSE4_2"
string instructionset_sse4_a = codes "SSE4_a"

-- The cases compare the upper-case input with the text of each constant.
unfoldable pub set : Bytes → Option InstructionSet
unfolding first_case string to_upper
set in_ = first_case string (to_upper in_) all_instruction_sets

unfoldable pub is_inheritable : InstructionSet → Bool
is_inheritable instructionset_inherit = true
is_inheritable instructionset_aes = false
is_inheritable instructionset_avx = false
is_inheritable instructionset_avx2 = false
is_inheritable instructionset_avx512 = false
is_inheritable instructionset_sse2 = false
is_inheritable instructionset_sse3 = false
is_inheritable instructionset_sse4_1 = false
is_inheritable instructionset_sse4_2 = false
is_inheritable instructionset_sse4_a = false

-- What is added, in order.
unfoldable pub auto_complete : List (Bytes × Bytes)
unfolding string description
auto_complete = map (λ it. (string it, description it)) all_instruction_sets

found : (x : InstructionSet) → first_case string (string x) all_instruction_sets ≡ some x
unfolding first_case string
found instructionset_inherit = refl
found instructionset_aes = refl
found instructionset_avx = refl
found instructionset_avx2 = refl
found instructionset_avx512 = refl
found instructionset_sse2 = refl
found instructionset_sse3 = refl
found instructionset_sse4_1 = refl
found instructionset_sse4_2 = refl
found instructionset_sse4_a = refl

pub set_iff :
    (in_ : Bytes) (x : InstructionSet)
    → is_ascii in_ ≡ true
    → (set in_ ≡ some x) ↔ (to_upper in_ ≡ string x)
unfolding set
set_iff in_ x ascii = first_case_iff string all_instruction_sets (found x) (to_upper in_)

pub offered : (x : InstructionSet) → elem (string x) (map (λ it. it.0) auto_complete) ≡ true
unfolding string auto_complete
offered instructionset_inherit = refl
offered instructionset_aes = refl
offered instructionset_avx = refl
offered instructionset_avx2 = refl
offered instructionset_avx512 = refl
offered instructionset_sse2 = refl
offered instructionset_sse3 = refl
offered instructionset_sse4_1 = refl
offered instructionset_sse4_2 = refl
offered instructionset_sse4_a = refl
