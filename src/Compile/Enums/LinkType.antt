-- ===== src/Compile/Enums/LinkType.antt =====
-- `LinkType` of compile/Enums.go.
use ppb.Prelude.{
  ◌≡◌, refl, ◌↔◌, Bool, true, false, Option, some, List, [], ◌∷◌, map, Bytes, is_ascii, elem,
  nat_comparable, list_comparable,
}
use ppb.Switch.{codes, to_upper, first_case, first_case_iff, IsRead}

pub data LinkType : Type 0 where
  link_inherit link_static link_dynamic : LinkType

abbrev pub get_link_types : List LinkType
get_link_types = link_inherit ∷ link_static ∷ link_dynamic ∷ []

unfoldable pub description : LinkType → Bytes
description link_inherit = codes "inherit default value from configuration"
description link_static = codes "compiler will produce a static library"
description link_dynamic = codes "compiler will produce a shared library"

unfoldable pub string : LinkType → Bytes
string link_inherit = codes "INHERIT"
string link_static = codes "STATIC"
string link_dynamic = codes "DYNAMIC"

-- The cases compare the upper-case input with the text of each constant.
unfoldable pub set : Bytes → Option LinkType
unfolding first_case string to_upper
set in_ = first_case string (to_upper in_) get_link_types

unfoldable pub is_inheritable : LinkType → Bool
is_inheritable link_inherit = true
is_inheritable link_static = false
is_inheritable link_dynamic = false

-- What is added, in order.
unfoldable pub auto_complete : List (Bytes × Bytes)
unfolding string description
auto_complete = map (λ it. (string it, description it)) get_link_types

found : (x : LinkType) → first_case string (string x) get_link_types ≡ some x
unfolding first_case string
found link_inherit = refl
found link_static = refl
found link_dynamic = refl

pub set_iff :
    (in_ : Bytes) (x : LinkType)
    → is_ascii in_ ≡ true
    → (set in_ ≡ some x) ↔ (to_upper in_ ≡ string x)
unfolding set
set_iff in_ x ascii = first_case_iff string get_link_types (found x) (to_upper in_)

pub offered : (x : LinkType) → elem (string x) (map (λ it. it.0) auto_complete) ≡ true
unfolding string auto_complete
offered link_inherit = refl
offered link_static = refl
offered link_dynamic = refl

upper : (x : LinkType) → to_upper (string x) ≡ string x
unfolding to_upper string
upper link_inherit = refl
upper link_static = refl
upper link_dynamic = refl

ascii : (x : LinkType) → is_ascii (string x) ≡ true
unfolding string
ascii link_inherit = refl
ascii link_static = refl
ascii link_dynamic = refl

pub reads : IsRead to_upper string set
reads = record { set-string = λ x. (set_iff (string x) x (ascii x)).1 (upper x); set_iff = set_iff }
