-- ===== src/Compile/Enums/DebugInfoType.antt =====
-- `DebugInfoType` of compile/Enums.go.
use ppb.Prelude.{
  ◌≡◌, refl, ◌↔◌, Bool, true, false, Option, some, List, [], ◌∷◌, map, Bytes, is_ascii, elem,
  nat_comparable, list_comparable,
}
use ppb.Switch.{codes, to_upper, first_case, first_case_iff, IsRead}

pub data DebugInfoType : Type 0 where
  debuginfo_inherit debuginfo_disabled debuginfo_embedded debuginfo_symbols debuginfo_hotreload :
      DebugInfoType

abbrev pub get_debug_info_types : List DebugInfoType
get_debug_info_types =
    debuginfo_inherit ∷ debuginfo_disabled ∷ debuginfo_embedded ∷ debuginfo_symbols
    ∷ debuginfo_hotreload ∷ []

unfoldable pub description : DebugInfoType → Bytes
description debuginfo_inherit = codes "inherit default value from configuration"
description debuginfo_disabled = codes "disable debugging symbols generation"
description debuginfo_embedded = codes "debugging symbols are embedded inside each compilation unit"
description debuginfo_symbols =
    codes "debugging symbols are stored in a Program Debugging Batabase (PDB)"
description debuginfo_hotreload =
    codes
      "debugging symbols are stored in a Program Debugging Batabase (PDB) with hot-reload support"

unfoldable pub string : DebugInfoType → Bytes
string debuginfo_inherit = codes "INHERIT"
string debuginfo_disabled = codes "DISABLED"
string debuginfo_embedded = codes "EMBEDDED"
string debuginfo_symbols = codes "SYMBOLS"
string debuginfo_hotreload = codes "HOTRELOAD"

-- The cases compare the upper-case input with the text of each constant.
unfoldable pub set : Bytes → Option DebugInfoType
unfolding first_case string to_upper
set in_ = first_case string (to_upper in_) get_debug_info_types

unfoldable pub is_inheritable : DebugInfoType → Bool
is_inheritable debuginfo_inherit = true
is_inheritable debuginfo_disabled = false
is_inheritable debuginfo_embedded = false
is_inheritable debuginfo_symbols = false
is_inheritable debuginfo_hotreload = false

-- What is added, in order.
unfoldable pub auto_complete : List (Bytes × Bytes)
unfolding string description
auto_complete = map (λ it. (string it, description it)) get_debug_info_types

found : (x : DebugInfoType) → first_case string (string x) get_debug_info_types ≡ some x
unfolding first_case string
found debuginfo_inherit = refl
found debuginfo_disabled = refl
found debuginfo_embedded = refl
found debuginfo_symbols = refl
found debuginfo_hotreload = refl

pub set_iff :
    (in_ : Bytes) (x : DebugInfoType)
    → is_ascii in_ ≡ true
    → (set in_ ≡ some x) ↔ (to_upper in_ ≡ string x)
unfolding set
set_iff in_ x ascii = first_case_iff string get_debug_info_types (found x) (to_upper in_)

pub offered : (x : DebugInfoType) → elem (string x) (map (λ it. it.0) auto_complete) ≡ true
unfolding string auto_complete
offered debuginfo_inherit = refl
offered debuginfo_disabled = refl
offered debuginfo_embedded = refl
offered debuginfo_symbols = refl
offered debuginfo_hotreload = refl

upper : (x : DebugInfoType) → to_upper (string x) ≡ string x
unfolding to_upper string
upper debuginfo_inherit = refl
upper debuginfo_disabled = refl
upper debuginfo_embedded = refl
upper debuginfo_symbols = refl
upper debuginfo_hotreload = refl

ascii : (x : DebugInfoType) → is_ascii (string x) ≡ true
unfolding string
ascii debuginfo_inherit = refl
ascii debuginfo_disabled = refl
ascii debuginfo_embedded = refl
ascii debuginfo_symbols = refl
ascii debuginfo_hotreload = refl

pub reads : IsRead to_upper string set
reads = record { set-string = λ x. (set_iff (string x) x (ascii x)).1 (upper x); set_iff = set_iff }
