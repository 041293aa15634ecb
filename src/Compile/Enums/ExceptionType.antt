-- ===== src/Compile/Enums/ExceptionType.antt =====
-- `ExceptionType` of compile/Enums.go.
use ppb.Prelude.{
  ◌≡◌, refl, ◌↔◌, Bool, true, false, Option, some, List, [], ◌∷◌, map, Bytes, is_ascii, elem,
  nat_comparable, list_comparable,
}
use ppb.Switch.{codes, to_upper, first_case, first_case_iff, IsRead}

pub data ExceptionType : Type 0 where
  exception_inherit exception_disabled exception_enabled : ExceptionType

abbrev pub get_exception_types : List ExceptionType
get_exception_types = exception_inherit ∷ exception_disabled ∷ exception_enabled ∷ []

unfoldable pub description : ExceptionType → Bytes
description exception_inherit = codes "inherit default value from configuration"
description exception_disabled = codes "disable C++ exception support"
description exception_enabled = codes "enable C++ exception support"

unfoldable pub string : ExceptionType → Bytes
string exception_inherit = codes "INHERIT"
string exception_disabled = codes "DISABLED"
string exception_enabled = codes "ENABLED"

-- The cases compare the upper-case input with the text of each constant.
unfoldable pub set : Bytes → Option ExceptionType
unfolding first_case string to_upper
set in_ = first_case string (to_upper in_) get_exception_types

unfoldable pub is_inheritable : ExceptionType → Bool
is_inheritable exception_inherit = true
is_inheritable exception_disabled = false
is_inheritable exception_enabled = false

-- What is added, in order.
unfoldable pub auto_complete : List (Bytes × Bytes)
unfolding string description
auto_complete = map (λ it. (string it, description it)) get_exception_types

found : (x : ExceptionType) → first_case string (string x) get_exception_types ≡ some x
unfolding first_case string
found exception_inherit = refl
found exception_disabled = refl
found exception_enabled = refl

pub set_iff :
    (in_ : Bytes) (x : ExceptionType)
    → is_ascii in_ ≡ true
    → (set in_ ≡ some x) ↔ (to_upper in_ ≡ string x)
unfolding set
set_iff in_ x ascii = first_case_iff string get_exception_types (found x) (to_upper in_)

pub offered : (x : ExceptionType) → elem (string x) (map (λ it. it.0) auto_complete) ≡ true
unfolding string auto_complete
offered exception_inherit = refl
offered exception_disabled = refl
offered exception_enabled = refl

upper : (x : ExceptionType) → to_upper (string x) ≡ string x
unfolding to_upper string
upper exception_inherit = refl
upper exception_disabled = refl
upper exception_enabled = refl

ascii : (x : ExceptionType) → is_ascii (string x) ≡ true
unfolding string
ascii exception_inherit = refl
ascii exception_disabled = refl
ascii exception_enabled = refl

pub reads : IsRead to_upper string set
reads = record { set-string = λ x. (set_iff (string x) x (ascii x)).1 (upper x); set_iff = set_iff }
