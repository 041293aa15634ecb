-- ===== src/Compile/Enums/SupportType.antt =====
-- `SupportType` of compile/Enums.go.
use ppb.Prelude.{
  ◌≡◌, refl, ◌↔◌, Bool, true, false, Option, some, List, [], ◌∷◌, map, Bytes, is_ascii, elem,
  nat_comparable, list_comparable,
}
use ppb.Switch.{codes, to_upper, first_case, first_case_iff, IsRead}

pub data SupportType : Type 0 where
  support_inherit support_allowed support_unavailable : SupportType

abbrev pub get_support_types : List SupportType
get_support_types = support_inherit ∷ support_allowed ∷ support_unavailable ∷ []

unfoldable pub description : SupportType → Bytes
description support_inherit = codes "inherit default value from configuration"
description support_allowed = codes "feature is supported"
description support_unavailable = codes "feature has no support"

unfoldable pub string : SupportType → Bytes
string support_inherit = codes "INHERIT"
string support_allowed = codes "ALLOWED"
string support_unavailable = codes "UNSUPPORTED"

-- The cases compare the upper-case input with the text of each constant.
unfoldable pub set : Bytes → Option SupportType
unfolding first_case string to_upper
set in_ = first_case string (to_upper in_) get_support_types

unfoldable pub enabled : SupportType → Bool
enabled support_inherit = false
enabled support_allowed = true
enabled support_unavailable = false

unfoldable pub is_inheritable : SupportType → Bool
is_inheritable support_inherit = true
is_inheritable support_allowed = false
is_inheritable support_unavailable = false

-- What is added, in order.
unfoldable pub auto_complete : List (Bytes × Bytes)
unfolding string description
auto_complete = map (λ it. (string it, description it)) get_support_types

found : (x : SupportType) → first_case string (string x) get_support_types ≡ some x
unfolding first_case string
found support_inherit = refl
found support_allowed = refl
found support_unavailable = refl

pub set_iff :
    (in_ : Bytes) (x : SupportType)
    → is_ascii in_ ≡ true
    → (set in_ ≡ some x) ↔ (to_upper in_ ≡ string x)
unfolding set
set_iff in_ x ascii = first_case_iff string get_support_types (found x) (to_upper in_)

pub offered : (x : SupportType) → elem (string x) (map (λ it. it.0) auto_complete) ≡ true
unfolding string auto_complete
offered support_inherit = refl
offered support_allowed = refl
offered support_unavailable = refl

upper : (x : SupportType) → to_upper (string x) ≡ string x
unfolding to_upper string
upper support_inherit = refl
upper support_allowed = refl
upper support_unavailable = refl

ascii : (x : SupportType) → is_ascii (string x) ≡ true
unfolding string
ascii support_inherit = refl
ascii support_allowed = refl
ascii support_unavailable = refl

pub reads : IsRead to_upper string set
reads = record { set-string = λ x. (set_iff (string x) x (ascii x)).1 (upper x); set_iff = set_iff }
