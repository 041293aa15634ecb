-- ===== src/Compile/Enums/VisibilityType.antt =====
-- `VisibilityType` of compile/Enums.go.
use ppb.Prelude.{
  ◌≡◌, refl, ◌↔◌, true, Option, some, List, [], ◌∷◌, map, Bytes, is_ascii, elem, ℕ, ◌%◌, ◌<◌, arith,
  nat_comparable, list_comparable,
}
use ppb.Switch.{codes, to_upper, first_case, first_case_iff, nth_constant, IsRead}

pub data VisibilityType : Type 0 where
  visibility_private visibility_public visibility_runtime : VisibilityType

abbrev pub get_visibility_types : List VisibilityType
get_visibility_types = visibility_private ∷ visibility_public ∷ visibility_runtime ∷ []

unfoldable pub ord : VisibilityType → ℕ
ord visibility_private = 0
ord visibility_public = 1
ord visibility_runtime = 2

-- The conversion to `byte`. `none` is a value that is no constant.
unfoldable pub from_ord : ℕ → Option VisibilityType
unfolding nth_constant
from_ord v = nth_constant get_visibility_types (v % 256)

pub from_ord-ord : (x : VisibilityType) → from_ord (ord x) ≡ some x
unfolding from_ord ord nth_constant
from_ord-ord visibility_private = refl
from_ord-ord visibility_public = refl
from_ord-ord visibility_runtime = refl

pub ord_lt : (x : VisibilityType) → ord x < 32
unfolding ord
ord_lt visibility_private = omega arith
ord_lt visibility_public = omega arith
ord_lt visibility_runtime = omega arith

unfoldable pub description : VisibilityType → Bytes
description visibility_private =
    codes "private dependency can be referenced from private source files, but not from public"
description visibility_public =
    codes
      "public dependency can be referenced from both private and public source files, and are transitive"
description visibility_runtime =
    codes "runtime dependency can only be loaded at runtime from a shared-library"

unfoldable pub string : VisibilityType → Bytes
string visibility_private = codes "PRIVATE"
string visibility_public = codes "PUBLIC"
string visibility_runtime = codes "RUNTIME"

-- The cases compare the upper-case input with the text of each constant.
unfoldable pub set : Bytes → Option VisibilityType
unfolding first_case string to_upper
set in_ = first_case string (to_upper in_) get_visibility_types

-- What is added, in order.
unfoldable pub auto_complete : List (Bytes × Bytes)
unfolding string description
auto_complete = map (λ it. (string it, description it)) get_visibility_types

found : (x : VisibilityType) → first_case string (string x) get_visibility_types ≡ some x
unfolding first_case string
found visibility_private = refl
found visibility_public = refl
found visibility_runtime = refl

pub set_iff :
    (in_ : Bytes) (x : VisibilityType)
    → is_ascii in_ ≡ true
    → (set in_ ≡ some x) ↔ (to_upper in_ ≡ string x)
unfolding set
set_iff in_ x ascii = first_case_iff string get_visibility_types (found x) (to_upper in_)

pub offered : (x : VisibilityType) → elem (string x) (map (λ it. it.0) auto_complete) ≡ true
unfolding string auto_complete
offered visibility_private = refl
offered visibility_public = refl
offered visibility_runtime = refl

upper : (x : VisibilityType) → to_upper (string x) ≡ string x
unfolding to_upper string
upper visibility_private = refl
upper visibility_public = refl
upper visibility_runtime = refl

ascii : (x : VisibilityType) → is_ascii (string x) ≡ true
unfolding string
ascii visibility_private = refl
ascii visibility_public = refl
ascii visibility_runtime = refl

pub reads : IsRead to_upper string set
reads = record { set-string = λ x. (set_iff (string x) x (ascii x)).1 (upper x); set_iff = set_iff }
