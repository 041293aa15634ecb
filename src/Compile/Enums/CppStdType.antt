-- ===== src/Compile/Enums/CppStdType.antt =====
-- `CppStdType` of compile/Enums.go.
use ppb.Prelude.{
  ◌≡◌, refl, ◌↔◌, Bool, true, false, Option, some, List, [], ◌∷◌, map, Bytes, is_ascii, elem,
  nat_comparable, list_comparable,
}
use ppb.Switch.{codes, to_upper, first_case, first_case_iff, IsRead}

pub data CppStdType : Type 0 where
  cppstd_inherit cppstd_latest cppstd_11 cppstd_14 cppstd_17 cppstd_20 cppstd_23 : CppStdType

abbrev pub get_cpp_std_types : List CppStdType
get_cpp_std_types =
    cppstd_inherit ∷ cppstd_latest ∷ cppstd_23 ∷ cppstd_20 ∷ cppstd_17 ∷ cppstd_14 ∷ cppstd_11 ∷ []

unfoldable pub description : CppStdType → Bytes
description cppstd_inherit = codes "inherit default value from configuration"
description cppstd_latest = codes "use latest C++ standard supported by the compiler"
description cppstd_11 = codes "use C++11 standard"
description cppstd_14 = codes "use C++14 standard"
description cppstd_17 = codes "use C++17 standard"
description cppstd_20 = codes "use C++20 standard"
description cppstd_23 = codes "use C++23 standard"

unfoldable pub string : CppStdType → Bytes
string cppstd_inherit = codes "INHERIT"
string cppstd_latest = codes "LATEST"
string cppstd_11 = codes "C++11"
string cppstd_14 = codes "C++14"
string cppstd_17 = codes "C++17"
string cppstd_20 = codes "C++20"
string cppstd_23 = codes "C++23"

-- The cases compare the upper-case input with the text of each constant.
unfoldable pub set : Bytes → Option CppStdType
unfolding first_case string to_upper
set in_ = first_case string (to_upper in_) get_cpp_std_types

unfoldable pub is_inheritable : CppStdType → Bool
is_inheritable cppstd_inherit = true
is_inheritable cppstd_latest = false
is_inheritable cppstd_11 = false
is_inheritable cppstd_14 = false
is_inheritable cppstd_17 = false
is_inheritable cppstd_20 = false
is_inheritable cppstd_23 = false

-- What is added, in order.
unfoldable pub auto_complete : List (Bytes × Bytes)
unfolding string description
auto_complete = map (λ it. (string it, description it)) get_cpp_std_types

found : (x : CppStdType) → first_case string (string x) get_cpp_std_types ≡ some x
unfolding first_case string
found cppstd_inherit = refl
found cppstd_latest = refl
found cppstd_11 = refl
found cppstd_14 = refl
found cppstd_17 = refl
found cppstd_20 = refl
found cppstd_23 = refl

pub set_iff :
    (in_ : Bytes) (x : CppStdType)
    → is_ascii in_ ≡ true
    → (set in_ ≡ some x) ↔ (to_upper in_ ≡ string x)
unfolding set
set_iff in_ x ascii = first_case_iff string get_cpp_std_types (found x) (to_upper in_)

pub offered : (x : CppStdType) → elem (string x) (map (λ it. it.0) auto_complete) ≡ true
unfolding string auto_complete
offered cppstd_inherit = refl
offered cppstd_latest = refl
offered cppstd_11 = refl
offered cppstd_14 = refl
offered cppstd_17 = refl
offered cppstd_20 = refl
offered cppstd_23 = refl

upper : (x : CppStdType) → to_upper (string x) ≡ string x
unfolding to_upper string
upper cppstd_inherit = refl
upper cppstd_latest = refl
upper cppstd_11 = refl
upper cppstd_14 = refl
upper cppstd_17 = refl
upper cppstd_20 = refl
upper cppstd_23 = refl

ascii : (x : CppStdType) → is_ascii (string x) ≡ true
unfolding string
ascii cppstd_inherit = refl
ascii cppstd_latest = refl
ascii cppstd_11 = refl
ascii cppstd_14 = refl
ascii cppstd_17 = refl
ascii cppstd_20 = refl
ascii cppstd_23 = refl

pub reads : IsRead to_upper string set
reads = record { set-string = λ x. (set_iff (string x) x (ascii x)).1 (upper x); set_iff = set_iff }
