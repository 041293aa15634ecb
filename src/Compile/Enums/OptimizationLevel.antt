-- ===== src/Compile/Enums/OptimizationLevel.antt =====
-- `OptimizationLevel` of compile/Enums.go.
use ppb.Prelude.{
  ◌≡◌, refl, ◌↔◌, Bool, true, false, Option, some, List, [], ◌∷◌, map, Bytes, is_ascii, elem,
  nat_comparable, list_comparable,
}
use ppb.Switch.{codes, to_upper, first_case, first_case_iff, IsRead}

pub data OptimizationLevel : Type 0 where
  optimize_inherit optimize_none optimize_for_debug optimize_for_size optimize_for_speed
        optimize_for_shipping :
      OptimizationLevel

abbrev pub optimization_types : List OptimizationLevel
optimization_types =
    optimize_inherit ∷ optimize_none ∷ optimize_for_debug ∷ optimize_for_size ∷ optimize_for_speed
    ∷ optimize_for_shipping ∷ []

unfoldable pub description : OptimizationLevel → Bytes
description optimize_inherit = codes "inherit default value from configuration"
description optimize_none = codes "disable all compiler optimizations"
description optimize_for_debug =
    codes "sets a combination of optimizations that balance between speed and ease of debugging"
description optimize_for_size =
    codes "sets a combination of optimizations that generate minimum size code"
description optimize_for_speed =
    codes "sets a combination of optimizations that optimizes code for maximum speed"
description optimize_for_shipping =
    codes
      "sets a combination of optimizations that generate best possible code, regardless of compilation times"

unfoldable pub string : OptimizationLevel → Bytes
string optimize_inherit = codes "INHERIT"
string optimize_none = codes "NONE"
string optimize_for_debug = codes "FOR_DEBUG"
string optimize_for_size = codes "FOR_SIZE"
string optimize_for_speed = codes "FOR_SPEED"
string optimize_for_shipping = codes "FOR_SHIPPING"

-- The cases compare the upper-case input with the text of each constant.
unfoldable pub set : Bytes → Option OptimizationLevel
unfolding first_case string to_upper
set in_ = first_case string (to_upper in_) optimization_types

unfoldable pub is_enabled : OptimizationLevel → Bool
is_enabled optimize_inherit = false
is_enabled optimize_none = false
is_enabled optimize_for_debug = true
is_enabled optimize_for_size = true
is_enabled optimize_for_speed = true
is_enabled optimize_for_shipping = true

unfoldable pub is_inheritable : OptimizationLevel → Bool
is_inheritable optimize_inherit = true
is_inheritable optimize_none = false
is_inheritable optimize_for_debug = false
is_inheritable optimize_for_size = false
is_inheritable optimize_for_speed = false
is_inheritable optimize_for_shipping = false

-- What is added, in order.
unfoldable pub auto_complete : List (Bytes × Bytes)
unfolding string description
auto_complete = map (λ it. (string it, description it)) optimization_types

found : (x : OptimizationLevel) → first_case string (string x) optimization_types ≡ some x
unfolding first_case string
found optimize_inherit = refl
found optimize_none = refl
found optimize_for_debug = refl
found optimize_for_size = refl
found optimize_for_speed = refl
found optimize_for_shipping = refl

pub set_iff :
    (in_ : Bytes) (x : OptimizationLevel)
    → is_ascii in_ ≡ true
    → (set in_ ≡ some x) ↔ (to_upper in_ ≡ string x)
unfolding set
set_iff in_ x ascii = first_case_iff string optimization_types (found x) (to_upper in_)

pub offered : (x : OptimizationLevel) → elem (string x) (map (λ it. it.0) auto_complete) ≡ true
unfolding string auto_complete
offered optimize_inherit = refl
offered optimize_none = refl
offered optimize_for_debug = refl
offered optimize_for_size = refl
offered optimize_for_speed = refl
offered optimize_for_shipping = refl

upper : (x : OptimizationLevel) → to_upper (string x) ≡ string x
unfolding to_upper string
upper optimize_inherit = refl
upper optimize_none = refl
upper optimize_for_debug = refl
upper optimize_for_size = refl
upper optimize_for_speed = refl
upper optimize_for_shipping = refl

ascii : (x : OptimizationLevel) → is_ascii (string x) ≡ true
unfolding string
ascii optimize_inherit = refl
ascii optimize_none = refl
ascii optimize_for_debug = refl
ascii optimize_for_size = refl
ascii optimize_for_speed = refl
ascii optimize_for_shipping = refl

pub reads : IsRead to_upper string set
reads = record { set-string = λ x. (set_iff (string x) x (ascii x)).1 (upper x); set_iff = set_iff }
