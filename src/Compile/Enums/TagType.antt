-- ===== src/Compile/Enums/TagType.antt =====
-- `TagType` of compile/Enums.go.
use ppb.Prelude.{
  ◌≡◌, refl, ◌↔◌, true, Option, some, List, [], ◌∷◌, map, Bytes, is_ascii, elem, ℕ, ◌%◌, ◌<◌, arith,
  nat_comparable, list_comparable,
}
use ppb.Switch.{codes, to_upper, first_case, first_case_iff, nth_constant, IsRead}

pub data TagType : Type 0 where
  tag_debug tag_ndebug tag_profiling tag_shipping tag_devel tag_test tag_fastdebug : TagType

abbrev pub get_tag_types : List TagType
get_tag_types =
    tag_debug ∷ tag_ndebug ∷ tag_profiling ∷ tag_shipping ∷ tag_devel ∷ tag_test ∷ tag_fastdebug
    ∷ []

unfoldable pub ord : TagType → ℕ
ord tag_debug = 0
ord tag_ndebug = 1
ord tag_profiling = 2
ord tag_shipping = 3
ord tag_devel = 4
ord tag_test = 5
ord tag_fastdebug = 6

-- The conversion to `byte`. `none` is a value that is no constant.
unfoldable pub from_ord : ℕ → Option TagType
unfolding nth_constant
from_ord v = nth_constant get_tag_types (v % 256)

pub from_ord-ord : (x : TagType) → from_ord (ord x) ≡ some x
unfolding from_ord ord nth_constant
from_ord-ord tag_debug = refl
from_ord-ord tag_ndebug = refl
from_ord-ord tag_profiling = refl
from_ord-ord tag_shipping = refl
from_ord-ord tag_devel = refl
from_ord-ord tag_test = refl
from_ord-ord tag_fastdebug = refl

pub ord_lt : (x : TagType) → ord x < 32
unfolding ord
ord_lt tag_debug = omega arith
ord_lt tag_ndebug = omega arith
ord_lt tag_profiling = omega arith
ord_lt tag_shipping = omega arith
ord_lt tag_devel = omega arith
ord_lt tag_test = omega arith
ord_lt tag_fastdebug = omega arith

unfoldable pub description : TagType → Bytes
description tag_debug = codes "unit with use debug"
description tag_ndebug = codes "unit won't use debug"
description tag_profiling = codes "unit will support profiling tools"
description tag_shipping = codes "unit targets shipping for final release"
description tag_devel = codes "unit is aimed at developers for debugging"
description tag_test = codes "unit is aimed at tester for AQ"
description tag_fastdebug =
    codes "unit will be compiled as a shared library for faster link times and hot-reload support"

unfoldable pub string : TagType → Bytes
string tag_debug = codes "DEBUG"
string tag_ndebug = codes "NDEBUG"
string tag_profiling = codes "PROFILING"
string tag_shipping = codes "SHIPPING"
string tag_devel = codes "DEVEL"
string tag_test = codes "TEST"
string tag_fastdebug = codes "FASTDEBUG"

-- The cases compare the upper-case input with the text of each constant.
unfoldable pub set : Bytes → Option TagType
unfolding first_case string to_upper
set in_ = first_case string (to_upper in_) get_tag_types

-- What is added, in order.
unfoldable pub auto_complete : List (Bytes × Bytes)
unfolding string description
auto_complete = map (λ it. (string it, description it)) get_tag_types

found : (x : TagType) → first_case string (string x) get_tag_types ≡ some x
unfolding first_case string
found tag_debug = refl
found tag_ndebug = refl
found tag_profiling = refl
found tag_shipping = refl
found tag_devel = refl
found tag_test = refl
found tag_fastdebug = refl

pub set_iff :
    (in_ : Bytes) (x : TagType)
    → is_ascii in_ ≡ true
    → (set in_ ≡ some x) ↔ (to_upper in_ ≡ string x)
unfolding set
set_iff in_ x ascii = first_case_iff string get_tag_types (found x) (to_upper in_)

pub offered : (x : TagType) → elem (string x) (map (λ it. it.0) auto_complete) ≡ true
unfolding string auto_complete
offered tag_debug = refl
offered tag_ndebug = refl
offered tag_profiling = refl
offered tag_shipping = refl
offered tag_devel = refl
offered tag_test = refl
offered tag_fastdebug = refl

upper : (x : TagType) → to_upper (string x) ≡ string x
unfolding to_upper string
upper tag_debug = refl
upper tag_ndebug = refl
upper tag_profiling = refl
upper tag_shipping = refl
upper tag_devel = refl
upper tag_test = refl
upper tag_fastdebug = refl

ascii : (x : TagType) → is_ascii (string x) ≡ true
unfolding string
ascii tag_debug = refl
ascii tag_ndebug = refl
ascii tag_profiling = refl
ascii tag_shipping = refl
ascii tag_devel = refl
ascii tag_test = refl
ascii tag_fastdebug = refl

pub reads : IsRead to_upper string set
reads = record { set-string = λ x. (set_iff (string x) x (ascii x)).1 (upper x); set_iff = set_iff }
