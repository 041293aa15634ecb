-- ===== src/Compile/Enums/CppRttiType.antt =====
-- `CppRttiType` of compile/Enums.go.
use ppb.Prelude.{
  ◌≡◌, refl, ◌↔◌, Bool, true, false, Option, some, List, [], ◌∷◌, map, Bytes, is_ascii, elem,
  nat_comparable, list_comparable,
}
use ppb.Switch.{codes, to_upper, first_case, first_case_iff, IsRead}

pub data CppRttiType : Type 0 where
  cpprtti_inherit cpprtti_enabled cpprtti_disabled : CppRttiType

abbrev pub get_cpp_rtti_types : List CppRttiType
get_cpp_rtti_types = cpprtti_inherit ∷ cpprtti_enabled ∷ cpprtti_disabled ∷ []

unfoldable pub description : CppRttiType → Bytes
description cpprtti_inherit = codes "inherit default value from configuration"
description cpprtti_enabled =
    codes "enable C++ RunTime Type Information generation (dynamic_cast<> will be available)"
description cpprtti_disabled =
    codes "disable C++ RunTime Type Information generation (dynamic_cast<> won't be available)"

unfoldable pub string : CppRttiType → Bytes
string cpprtti_inherit = codes "INHERIT"
string cpprtti_enabled = codes "ENABLED"
string cpprtti_disabled = codes "DISABLED"

-- The cases compare the upper-case input with the text of each constant.
unfoldable pub set : Bytes → Option CppRttiType
unfolding first_case string to_upper
set in_ = first_case string (to_upper in_) get_cpp_rtti_types

unfoldable pub is_inheritable : CppRttiType → Bool
is_inheritable cpprtti_inherit = true
is_inheritable cpprtti_enabled = false
is_inheritable cpprtti_disabled = false

-- What is added, in order.
unfoldable pub auto_complete : List (Bytes × Bytes)
unfolding string description
auto_complete = map (λ it. (string it, description it)) get_cpp_rtti_types

found : (x : CppRttiType) → first_case string (string x) get_cpp_rtti_types ≡ some x
unfolding first_case string
found cpprtti_inherit = refl
found cpprtti_enabled = refl
found cpprtti_disabled = refl

pub set_iff :
    (in_ : Bytes) (x : CppRttiType)
    → is_ascii in_ ≡ true
    → (set in_ ≡ some x) ↔ (to_upper in_ ≡ string x)
unfolding set
set_iff in_ x ascii = first_case_iff string get_cpp_rtti_types (found x) (to_upper in_)

pub offered : (x : CppRttiType) → elem (string x) (map (λ it. it.0) auto_complete) ≡ true
unfolding string auto_complete
offered cpprtti_inherit = refl
offered cpprtti_enabled = refl
offered cpprtti_disabled = refl

upper : (x : CppRttiType) → to_upper (string x) ≡ string x
unfolding to_upper string
upper cpprtti_inherit = refl
upper cpprtti_enabled = refl
upper cpprtti_disabled = refl

ascii : (x : CppRttiType) → is_ascii (string x) ≡ true
unfolding string
ascii cpprtti_inherit = refl
ascii cpprtti_enabled = refl
ascii cpprtti_disabled = refl

pub reads : IsRead to_upper string set
reads = record { set-string = λ x. (set_iff (string x) x (ascii x)).1 (upper x); set_iff = set_iff }
