-- ===== src/Compile/Enums/ModuleType.antt =====
-- `ModuleType` of compile/Enums.go.
use ppb.Prelude.{
  ◌≡◌, refl, ◌↔◌, Bool, true, false, Option, some, List, [], ◌∷◌, map, Bytes, is_ascii, elem, not,
  nat_comparable, list_comparable,
}
use ppb.Switch.{codes, to_upper, first_case, first_case_iff, IsRead}

pub data ModuleType : Type 0 where
  module_inherit module_program module_library module_external module_headers : ModuleType

abbrev pub get_module_types : List ModuleType
get_module_types = module_program ∷ module_library ∷ module_external ∷ module_headers ∷ []

unfoldable pub description : ModuleType → Bytes
description module_inherit = codes "inherit default value from configuration"
description module_program = codes "module will produce an executable program"
description module_library = codes "module will produce a library (static or dynamic)"
description module_external = codes "module will produce a list of compiled objects"
description module_headers =
    codes "module will produce nothing, since it does not contain source files"

unfoldable pub string : ModuleType → Bytes
string module_inherit = codes "INHERIT"
string module_program = codes "PROGRAM"
string module_library = codes "LIBRARY"
string module_external = codes "EXTERNAL"
string module_headers = codes "HEADERS"

abbrev cases : List ModuleType
cases = module_inherit ∷ module_program ∷ module_library ∷ module_external ∷ module_headers ∷ []

-- The cases compare the upper-case input with the text of each constant.
unfoldable pub set : Bytes → Option ModuleType
unfolding first_case string to_upper
set in_ = first_case string (to_upper in_) cases

unfoldable pub is_inheritable : ModuleType → Bool
is_inheritable module_inherit = true
is_inheritable module_program = false
is_inheritable module_library = false
is_inheritable module_external = false
is_inheritable module_headers = false

-- What is added, in order.
unfoldable pub auto_complete : List (Bytes × Bytes)
unfolding string description
auto_complete = map (λ it. (string it, description it)) get_module_types

found : (x : ModuleType) → first_case string (string x) cases ≡ some x
unfolding first_case string
found module_inherit = refl
found module_program = refl
found module_library = refl
found module_external = refl
found module_headers = refl

pub set_iff :
    (in_ : Bytes) (x : ModuleType)
    → is_ascii in_ ≡ true
    → (set in_ ≡ some x) ↔ (to_upper in_ ≡ string x)
unfolding set
set_iff in_ x ascii = first_case_iff string cases (found x) (to_upper in_)

pub offered :
    (x : ModuleType) → elem (string x) (map (λ it. it.0) auto_complete) ≡ not (is_inheritable x)
unfolding string auto_complete is_inheritable
offered module_inherit = refl
offered module_program = refl
offered module_library = refl
offered module_external = refl
offered module_headers = refl

upper : (x : ModuleType) → to_upper (string x) ≡ string x
unfolding to_upper string
upper module_inherit = refl
upper module_program = refl
upper module_library = refl
upper module_external = refl
upper module_headers = refl

ascii : (x : ModuleType) → is_ascii (string x) ≡ true
unfolding string
ascii module_inherit = refl
ascii module_program = refl
ascii module_library = refl
ascii module_external = refl
ascii module_headers = refl

pub reads : IsRead to_upper string set
reads = record { set-string = λ x. (set_iff (string x) x (ascii x)).1 (upper x); set_iff = set_iff }
