-- ===== src/Hal/Windows/CompilerType.antt =====
-- `CompilerType` of internal/hal/windows/Enums.go.
use ppb.Prelude.{
  ◌≡◌, refl, ◌↔◌, true, Option, some, List, [], ◌∷◌, map, Bytes, is_ascii, elem, nat_comparable,
  list_comparable,
}
use ppb.Switch.{codes, to_upper, first_case, first_case_iff, IsRead}

pub data CompilerType : Type 0 where
  compiler_msvc compiler_clangcl : CompilerType

abbrev pub get_compiler_types : List CompilerType
get_compiler_types = compiler_msvc ∷ compiler_clangcl ∷ []

unfoldable pub description : CompilerType → Bytes
description compiler_msvc = codes "Microsoft Visual C++ compiler"
description compiler_clangcl = codes "LLVM Clang C++ compiler"

unfoldable pub string : CompilerType → Bytes
string compiler_msvc = codes "MSVC"
string compiler_clangcl = codes "CLANGCL"

-- The cases compare the upper-case input with the text of each constant.
unfoldable pub set : Bytes → Option CompilerType
unfolding first_case string to_upper
set in_ = first_case string (to_upper in_) get_compiler_types

-- What is added, in order.
unfoldable pub auto_complete : List (Bytes × Bytes)
unfolding string description
auto_complete = map (λ it. (string it, description it)) get_compiler_types

found : (x : CompilerType) → first_case string (string x) get_compiler_types ≡ some x
unfolding first_case string
found compiler_msvc = refl
found compiler_clangcl = refl

pub set_iff :
    (in_ : Bytes) (x : CompilerType)
    → is_ascii in_ ≡ true
    → (set in_ ≡ some x) ↔ (to_upper in_ ≡ string x)
unfolding set
set_iff in_ x ascii = first_case_iff string get_compiler_types (found x) (to_upper in_)

pub offered : (x : CompilerType) → elem (string x) (map (λ it. it.0) auto_complete) ≡ true
unfolding string auto_complete
offered compiler_msvc = refl
offered compiler_clangcl = refl

upper : (x : CompilerType) → to_upper (string x) ≡ string x
unfolding to_upper string
upper compiler_msvc = refl
upper compiler_clangcl = refl

ascii : (x : CompilerType) → is_ascii (string x) ≡ true
unfolding string
ascii compiler_msvc = refl
ascii compiler_clangcl = refl

pub reads : IsRead to_upper string set
reads = record { set-string = λ x. (set_iff (string x) x (ascii x)).1 (upper x); set_iff = set_iff }
