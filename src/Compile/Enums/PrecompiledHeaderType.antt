-- ===== src/Compile/Enums/PrecompiledHeaderType.antt =====
-- `PrecompiledHeaderType` of compile/Enums.go.
use ppb.Prelude.{
  ◌≡◌, refl, ◌↔◌, Bool, true, false, Option, some, List, [], ◌∷◌, map, Bytes, is_ascii, elem,
  nat_comparable, list_comparable,
}
use ppb.Switch.{codes, to_upper, first_case, first_case_iff, IsRead}

pub data PrecompiledHeaderType : Type 0 where
  pch_inherit pch_disabled pch_monolithic pch_shared pch_headerunit : PrecompiledHeaderType

abbrev pub get_precompiled_header_types : List PrecompiledHeaderType
get_precompiled_header_types =
    pch_inherit ∷ pch_disabled ∷ pch_monolithic ∷ pch_shared ∷ pch_headerunit ∷ []

unfoldable pub description : PrecompiledHeaderType → Bytes
description pch_inherit = codes "inherit default value from configuration"
description pch_disabled = codes "disable precompiled header usage"
description pch_monolithic = codes "generate a dedicated precompiled header for this module"
description pch_shared = codes "reuse a shared precompiled header for this module"
description pch_headerunit =
    codes "generate a C++20 header unit, which is faster/smaller than PCH and machine indepedent"

unfoldable pub string : PrecompiledHeaderType → Bytes
string pch_inherit = codes "INHERIT"
string pch_disabled = codes "DISABLED"
string pch_monolithic = codes "MONOLITHIC"
string pch_shared = codes "SHARED"
string pch_headerunit = codes "HEADERUNIT"

-- The cases compare the upper-case input with the text of each constant.
unfoldable pub set : Bytes → Option PrecompiledHeaderType
unfolding first_case string to_upper
set in_ = first_case string (to_upper in_) get_precompiled_header_types

unfoldable pub is_inheritable : PrecompiledHeaderType → Bool
is_inheritable pch_inherit = true
is_inheritable pch_disabled = false
is_inheritable pch_monolithic = false
is_inheritable pch_shared = false
is_inheritable pch_headerunit = false

-- What is added, in order.
unfoldable pub auto_complete : List (Bytes × Bytes)
unfolding string description
auto_complete = map (λ it. (string it, description it)) get_precompiled_header_types

found :
    (x : PrecompiledHeaderType) → first_case string (string x) get_precompiled_header_types ≡ some x
unfolding first_case string
found pch_inherit = refl
found pch_disabled = refl
found pch_monolithic = refl
found pch_shared = refl
found pch_headerunit = refl

pub set_iff :
    (in_ : Bytes) (x : PrecompiledHeaderType)
    → is_ascii in_ ≡ true
    → (set in_ ≡ some x) ↔ (to_upper in_ ≡ string x)
unfolding set
set_iff in_ x ascii = first_case_iff string get_precompiled_header_types (found x) (to_upper in_)

pub offered : (x : PrecompiledHeaderType) → elem (string x) (map (λ it. it.0) auto_complete) ≡ true
unfolding string auto_complete
offered pch_inherit = refl
offered pch_disabled = refl
offered pch_monolithic = refl
offered pch_shared = refl
offered pch_headerunit = refl

upper : (x : PrecompiledHeaderType) → to_upper (string x) ≡ string x
unfolding to_upper string
upper pch_inherit = refl
upper pch_disabled = refl
upper pch_monolithic = refl
upper pch_shared = refl
upper pch_headerunit = refl

ascii : (x : PrecompiledHeaderType) → is_ascii (string x) ≡ true
unfolding string
ascii pch_inherit = refl
ascii pch_disabled = refl
ascii pch_monolithic = refl
ascii pch_shared = refl
ascii pch_headerunit = refl

pub reads : IsRead to_upper string set
reads = record { set-string = λ x. (set_iff (string x) x (ascii x)).1 (upper x); set_iff = set_iff }
