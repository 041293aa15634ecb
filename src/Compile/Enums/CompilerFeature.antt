-- ===== src/Compile/Enums/CompilerFeature.antt =====
-- `CompilerFeature` of compile/Enums.go.
use ppb.Prelude.{
  ◌≡◌, refl, ◌↔◌, true, Option, some, List, [], ◌∷◌, map, Bytes, is_ascii, elem, ℕ, ◌%◌, ◌<◌, arith,
  nat_comparable, list_comparable,
}
use ppb.Switch.{codes, to_upper, first_case, first_case_iff, nth_constant, IsRead}

pub data CompilerFeature : Type 0 where
  compiler_allow_caching compiler_allow_distribution compiler_allow_responsefile
        compiler_allow_sourcemapping compiler_allow_editandcontinue :
      CompilerFeature

abbrev pub get_compiler_features : List CompilerFeature
get_compiler_features =
    compiler_allow_caching ∷ compiler_allow_distribution ∷ compiler_allow_responsefile
    ∷ compiler_allow_sourcemapping ∷ compiler_allow_editandcontinue ∷ []

unfoldable pub ord : CompilerFeature → ℕ
ord compiler_allow_caching = 0
ord compiler_allow_distribution = 1
ord compiler_allow_responsefile = 2
ord compiler_allow_sourcemapping = 3
ord compiler_allow_editandcontinue = 4

-- The conversion to `byte`. `none` is a value that is no constant.
unfoldable pub from_ord : ℕ → Option CompilerFeature
unfolding nth_constant
from_ord v = nth_constant get_compiler_features (v % 256)

pub from_ord-ord : (x : CompilerFeature) → from_ord (ord x) ≡ some x
unfolding from_ord ord nth_constant
from_ord-ord compiler_allow_caching = refl
from_ord-ord compiler_allow_distribution = refl
from_ord-ord compiler_allow_responsefile = refl
from_ord-ord compiler_allow_sourcemapping = refl
from_ord-ord compiler_allow_editandcontinue = refl

pub ord_lt : (x : CompilerFeature) → ord x < 32
unfolding ord
ord_lt compiler_allow_caching = omega arith
ord_lt compiler_allow_distribution = omega arith
ord_lt compiler_allow_responsefile = omega arith
ord_lt compiler_allow_sourcemapping = omega arith
ord_lt compiler_allow_editandcontinue = omega arith

unfoldable pub description : CompilerFeature → Bytes
description compiler_allow_caching = codes "compiler payload can be stored in cache"
description compiler_allow_distribution = codes "compiler can be executed on a remote worker"
description compiler_allow_responsefile =
    codes "compiler allows usage of response files for long command-lines"
description compiler_allow_sourcemapping = codes "compiler can remap source for debug files"
description compiler_allow_editandcontinue = codes "compiler can generate a hot-reloadable payload"

unfoldable pub string : CompilerFeature → Bytes
string compiler_allow_caching = codes "ALLOW_CACHING"
string compiler_allow_distribution = codes "ALLOW_DISTRIBUTION"
string compiler_allow_responsefile = codes "ALLOW_RESPONSEFILE"
string compiler_allow_sourcemapping = codes "ALLOW_SOURCEMAPPING"
string compiler_allow_editandcontinue = codes "ALLOW_EDITANDCONTINUE"

-- The cases compare the upper-case input with the text of each constant.
unfoldable pub set : Bytes → Option CompilerFeature
unfolding first_case string to_upper
set in_ = first_case string (to_upper in_) get_compiler_features

-- What is added, in order.
unfoldable pub auto_complete : List (Bytes × Bytes)
unfolding string description
auto_complete = map (λ it. (string it, description it)) get_compiler_features

found : (x : CompilerFeature) → first_case string (string x) get_compiler_features ≡ some x
unfolding first_case string
found compiler_allow_caching = refl
found compiler_allow_distribution = refl
found compiler_allow_responsefile = refl
found compiler_allow_sourcemapping = refl
found compiler_allow_editandcontinue = refl

pub set_iff :
    (in_ : Bytes) (x : CompilerFeature)
    → is_ascii in_ ≡ true
    → (set in_ ≡ some x) ↔ (to_upper in_ ≡ string x)
unfolding set
set_iff in_ x ascii = first_case_iff string get_compiler_features (found x) (to_upper in_)

pub offered : (x : CompilerFeature) → elem (string x) (map (λ it. it.0) auto_complete) ≡ true
unfolding string auto_complete
offered compiler_allow_caching = refl
offered compiler_allow_distribution = refl
offered compiler_allow_responsefile = refl
offered compiler_allow_sourcemapping = refl
offered compiler_allow_editandcontinue = refl

upper : (x : CompilerFeature) → to_upper (string x) ≡ string x
unfolding to_upper string
upper compiler_allow_caching = refl
upper compiler_allow_distribution = refl
upper compiler_allow_responsefile = refl
upper compiler_allow_sourcemapping = refl
upper compiler_allow_editandcontinue = refl

ascii : (x : CompilerFeature) → is_ascii (string x) ≡ true
unfolding string
ascii compiler_allow_caching = refl
ascii compiler_allow_distribution = refl
ascii compiler_allow_responsefile = refl
ascii compiler_allow_sourcemapping = refl
ascii compiler_allow_editandcontinue = refl

pub reads : IsRead to_upper string set
reads = record { set-string = λ x. (set_iff (string x) x (ascii x)).1 (upper x); set_iff = set_iff }
