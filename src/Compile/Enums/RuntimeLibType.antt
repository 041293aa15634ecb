-- ===== src/Compile/Enums/RuntimeLibType.antt =====
-- `RuntimeLibType` of compile/Enums.go.
use ppb.Prelude.{
  ◌≡◌, refl, ◌↔◌, Bool, true, false, Option, some, List, [], ◌∷◌, map, Bytes, is_ascii, elem,
  nat_comparable, list_comparable,
}
use ppb.Switch.{codes, to_upper, first_case, first_case_iff, IsRead}

pub data RuntimeLibType : Type 0 where
  runtimelib_inherit runtimelib_dynamic runtimelib_dynamic_debug runtimelib_static
        runtimelib_static_debug :
      RuntimeLibType

abbrev pub get_runtime_lib_types : List RuntimeLibType
get_runtime_lib_types =
    runtimelib_inherit ∷ runtimelib_dynamic ∷ runtimelib_dynamic_debug ∷ runtimelib_static
    ∷ runtimelib_static_debug ∷ []

unfoldable pub description : RuntimeLibType → Bytes
description runtimelib_inherit = codes "inherit default value from configuration"
description runtimelib_dynamic = codes "use dynamic runtime provided by host system"
description runtimelib_dynamic_debug = codes "use dynamic debug runtime provided by host system"
description runtimelib_static = codes "embed static runtime inside binary"
description runtimelib_static_debug = codes "embed static debug runtime inside binary"

unfoldable pub string : RuntimeLibType → Bytes
string runtimelib_inherit = codes "INHERIT"
string runtimelib_dynamic = codes "DYNAMIC"
string runtimelib_dynamic_debug = codes "DYNAMIC_DEBUG"
string runtimelib_static = codes "STATIC"
string runtimelib_static_debug = codes "STATIC_DEBUG"

-- The cases compare the upper-case input with the text of each constant.
unfoldable pub set : Bytes → Option RuntimeLibType
unfolding first_case string to_upper
set in_ = first_case string (to_upper in_) get_runtime_lib_types

unfoldable pub is_debug : RuntimeLibType → Bool
is_debug runtimelib_inherit = false
is_debug runtimelib_dynamic = false
is_debug runtimelib_dynamic_debug = true
is_debug runtimelib_static = false
is_debug runtimelib_static_debug = true

unfoldable pub is_inheritable : RuntimeLibType → Bool
is_inheritable runtimelib_inherit = true
is_inheritable runtimelib_dynamic = false
is_inheritable runtimelib_dynamic_debug = false
is_inheritable runtimelib_static = false
is_inheritable runtimelib_static_debug = false

-- What is added, in order.
unfoldable pub auto_complete : List (Bytes × Bytes)
unfolding string description
auto_complete = map (λ it. (string it, description it)) get_runtime_lib_types

found : (x : RuntimeLibType) → first_case string (string x) get_runtime_lib_types ≡ some x
unfolding first_case string
found runtimelib_inherit = refl
found runtimelib_dynamic = refl
found runtimelib_dynamic_debug = refl
found runtimelib_static = refl
found runtimelib_static_debug = refl

pub set_iff :
    (in_ : Bytes) (x : RuntimeLibType)
    → is_ascii in_ ≡ true
    → (set in_ ≡ some x) ↔ (to_upper in_ ≡ string x)
unfolding set
set_iff in_ x ascii = first_case_iff string get_runtime_lib_types (found x) (to_upper in_)

pub offered : (x : RuntimeLibType) → elem (string x) (map (λ it. it.0) auto_complete) ≡ true
unfolding string auto_complete
offered runtimelib_inherit = refl
offered runtimelib_dynamic = refl
offered runtimelib_dynamic_debug = refl
offered runtimelib_static = refl
offered runtimelib_static_debug = refl

upper : (x : RuntimeLibType) → to_upper (string x) ≡ string x
unfolding to_upper string
upper runtimelib_inherit = refl
upper runtimelib_dynamic = refl
upper runtimelib_dynamic_debug = refl
upper runtimelib_static = refl
upper runtimelib_static_debug = refl

ascii : (x : RuntimeLibType) → is_ascii (string x) ≡ true
unfolding string
ascii runtimelib_inherit = refl
ascii runtimelib_dynamic = refl
ascii runtimelib_dynamic_debug = refl
ascii runtimelib_static = refl
ascii runtimelib_static_debug = refl

pub reads : IsRead to_upper string set
reads = record { set-string = λ x. (set_iff (string x) x (ascii x)).1 (upper x); set_iff = set_iff }
