-- ===== src/Compile/Enums/WarningLevel.antt =====
-- `WarningLevel` of compile/Enums.go.
use ppb.Prelude.{
  ◌≡◌, refl, ◌↔◌, Bool, true, false, Option, some, List, [], ◌∷◌, map, Bytes, is_ascii, elem,
  nat_comparable, list_comparable,
}
use ppb.Switch.{codes, to_upper, first_case, first_case_iff, IsRead}

pub data WarningLevel : Type 0 where
  warning_inherit warning_disabled warning_warn warning_error : WarningLevel

abbrev pub get_warning_levels : List WarningLevel
get_warning_levels = warning_inherit ∷ warning_disabled ∷ warning_warn ∷ warning_error ∷ []

unfoldable pub description : WarningLevel → Bytes
description warning_inherit = codes "inherit from parent's value"
description warning_disabled = codes "warning will be disabled"
description warning_warn = codes "warning will be visible but the build will continue"
description warning_error = codes "warning will be visible and will be considered as an error"

unfoldable pub string : WarningLevel → Bytes
string warning_inherit = codes "INHERIT"
string warning_disabled = codes "DISABLED"
string warning_warn = codes "WARN"
string warning_error = codes "ERROR"

-- The cases compare the upper-case input with the text of each constant.
unfoldable pub set : Bytes → Option WarningLevel
unfolding first_case string to_upper
set in_ = first_case string (to_upper in_) get_warning_levels

unfoldable pub is_enabled : WarningLevel → Bool
is_enabled warning_inherit = false
is_enabled warning_disabled = false
is_enabled warning_warn = true
is_enabled warning_error = true

unfoldable pub is_inheritable : WarningLevel → Bool
is_inheritable warning_inherit = true
is_inheritable warning_disabled = false
is_inheritable warning_warn = false
is_inheritable warning_error = false

-- What is added, in order.
unfoldable pub auto_complete : List (Bytes × Bytes)
unfolding string description
auto_complete = map (λ it. (string it, description it)) get_warning_levels

found : (x : WarningLevel) → first_case string (string x) get_warning_levels ≡ some x
unfolding first_case string
found warning_inherit = refl
found warning_disabled = refl
found warning_warn = refl
found warning_error = refl

pub set_iff :
    (in_ : Bytes) (x : WarningLevel)
    → is_ascii in_ ≡ true
    → (set in_ ≡ some x) ↔ (to_upper in_ ≡ string x)
unfolding set
set_iff in_ x ascii = first_case_iff string get_warning_levels (found x) (to_upper in_)

pub offered : (x : WarningLevel) → elem (string x) (map (λ it. it.0) auto_complete) ≡ true
unfolding string auto_complete
offered warning_inherit = refl
offered warning_disabled = refl
offered warning_warn = refl
offered warning_error = refl

upper : (x : WarningLevel) → to_upper (string x) ≡ string x
unfolding to_upper string
upper warning_inherit = refl
upper warning_disabled = refl
upper warning_warn = refl
upper warning_error = refl

ascii : (x : WarningLevel) → is_ascii (string x) ≡ true
unfolding string
ascii warning_inherit = refl
ascii warning_disabled = refl
ascii warning_warn = refl
ascii warning_error = refl

pub reads : IsRead to_upper string set
reads = record { set-string = λ x. (set_iff (string x) x (ascii x)).1 (upper x); set_iff = set_iff }
