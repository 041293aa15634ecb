-- ===== src/Hal/Linux/CompilerType.antt =====
-- `CompilerType` of internal/hal/linux/Enums.go.
use ppb.Prelude.{
  ◌≡◌, refl, ◌↔◌, true, Option, some, List, [], ◌∷◌, map, Bytes, is_ascii, elem, nat_comparable,
  list_comparable,
}
use ppb.Switch.{codes, to_upper, first_case, first_case_iff, IsRead}

pub data CompilerType : Type 0 where
  compiler_clang compiler_gcc : CompilerType

abbrev pub get_compiler_types : List CompilerType
get_compiler_types = compiler_clang ∷ compiler_gcc ∷ []

unfoldable pub description : CompilerType → Bytes
description compiler_clang = codes "LLVM Clang C++ compiler"
description compiler_gcc = codes "GNU Compiler Collection"

unfoldable pub string : CompilerType → Bytes
string compiler_clang = codes "CLANG"
string compiler_gcc = codes "GCC"

-- The cases compare the upper-case input with the text of each constant.
unfoldable pub set : Bytes → Option CompilerType
unfolding first_case string to_upper
set in_ = first_case string (to_upper in_) get_compiler_types

-- What is added, in order.
unfoldable pub auto_complete : List (Bytes × Bytes)
unfolding string description
auto_complete = map (λ it. (string it, description it)) get_compiler_types

found : (x : CompilerType) → first_case string (string x) get_compiler_types ≡ some x
unfolding first_case string
found compiler_clang = refl
found compiler_gcc = refl

pub set_iff :
    (in_ : Bytes) (x : CompilerType)
    → is_ascii in_ ≡ true
    → (set in_ ≡ some x) ↔ (to_upper in_ ≡ string x)
unfolding set
set_iff in_ x ascii = first_case_iff string get_compiler_types (found x) (to_upper in_)

pub offered : (x : CompilerType) → elem (string x) (map (λ it. it.0) auto_complete) ≡ true
unfolding string auto_complete
offered compiler_clang = refl
offered compiler_gcc = refl

upper : (x : CompilerType) → to_upper (string x) ≡ string x
unfolding to_upper string
upper compiler_clang = refl
upper compiler_gcc = refl

ascii : (x : CompilerType) → is_ascii (string x) ≡ true
unfolding string
ascii compiler_clang = refl
ascii compiler_gcc = refl

pub reads : IsRead to_upper string set
reads = record { set-string = λ x. (set_iff (string x) x (ascii x)).1 (upper x); set_iff = set_iff }
