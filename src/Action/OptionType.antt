-- ===== src/Action/OptionType.antt =====
-- `OptionType` of action/ActionFlags.go.
use ppb.Prelude.{
  ◌≡◌, refl, ◌↔◌, true, Option, some, List, [], ◌∷◌, map, Bytes, is_ascii, elem, ℕ, ◌%◌, ◌<◌, arith,
  nat_comparable, list_comparable,
}
use ppb.Switch.{codes, to_upper, first_case, first_case_iff, nth_constant, IsRead}

pub data OptionType : Type 0 where
  opt_allow_cacheread opt_allow_cachewrite opt_allow_distribution opt_allow_relativepath
        opt_allow_responsefile opt_allow_sourcedependencies opt_propagate_inputs opt_high_priority :
      OptionType

abbrev pub get_option_types : List OptionType
get_option_types =
    opt_allow_cacheread ∷ opt_allow_cachewrite ∷ opt_allow_distribution ∷ opt_allow_relativepath
    ∷ opt_allow_responsefile ∷ opt_allow_sourcedependencies ∷ opt_propagate_inputs
    ∷ opt_high_priority ∷ []

unfoldable pub ord : OptionType → ℕ
ord opt_allow_cacheread = 0
ord opt_allow_cachewrite = 1
ord opt_allow_distribution = 2
ord opt_allow_relativepath = 3
ord opt_allow_responsefile = 4
ord opt_allow_sourcedependencies = 5
ord opt_propagate_inputs = 6
ord opt_high_priority = 7

-- The conversion to `byte`. `none` is a value that is no constant.
unfoldable pub from_ord : ℕ → Option OptionType
unfolding nth_constant
from_ord v = nth_constant get_option_types (v % 256)

pub from_ord-ord : (x : OptionType) → from_ord (ord x) ≡ some x
unfolding from_ord ord nth_constant
from_ord-ord opt_allow_cacheread = refl
from_ord-ord opt_allow_cachewrite = refl
from_ord-ord opt_allow_distribution = refl
from_ord-ord opt_allow_relativepath = refl
from_ord-ord opt_allow_responsefile = refl
from_ord-ord opt_allow_sourcedependencies = refl
from_ord-ord opt_propagate_inputs = refl
from_ord-ord opt_high_priority = refl

pub ord_lt : (x : OptionType) → ord x < 32
unfolding ord
ord_lt opt_allow_cacheread = omega arith
ord_lt opt_allow_cachewrite = omega arith
ord_lt opt_allow_distribution = omega arith
ord_lt opt_allow_relativepath = omega arith
ord_lt opt_allow_responsefile = omega arith
ord_lt opt_allow_sourcedependencies = omega arith
ord_lt opt_propagate_inputs = omega arith
ord_lt opt_high_priority = omega arith

unfoldable pub description : OptionType → Bytes
description opt_allow_cacheread = codes "allow retrieving build artifacts from action cache"
description opt_allow_cachewrite = codes "allow storing build artifacts in action cache"
description opt_allow_distribution = codes "allow remote distribution of action task"
description opt_allow_relativepath = codes "allow converting absolute paths to relative paths"
description opt_allow_responsefile =
    codes "allow using response files when command-line exceeds OS limitations"
description opt_allow_sourcedependencies =
    codes "allow tracking of implicit source file dependencies"
description opt_propagate_inputs =
    codes "dependent tasks will depend on current task inputs instead of output"
description opt_high_priority =
    codes "action task will be scheduled to run with higher priority than task without this flag"

unfoldable pub string : OptionType → Bytes
string opt_allow_cacheread = codes "ALLOW_CACHEREAD"
string opt_allow_cachewrite = codes "ALLOW_CACHEWRITE"
string opt_allow_distribution = codes "ALLOW_DISTRIBUTION"
string opt_allow_relativepath = codes "ALLOW_RELATIVEPATH"
string opt_allow_responsefile = codes "ALLOW_RESPONSEFILE"
string opt_allow_sourcedependencies = codes "ALLOW_SOURCEDEPENDENCIES"
string opt_propagate_inputs = codes "PROPAGATE_INPUTS"
string opt_high_priority = codes "HIGH_PRIORITY"

-- The cases compare the upper-case input with the text of each constant.
unfoldable pub set : Bytes → Option OptionType
unfolding first_case string to_upper
set in_ = first_case string (to_upper in_) get_option_types

-- What is added, in order.
unfoldable pub auto_complete : List (Bytes × Bytes)
unfolding string description
auto_complete = map (λ it. (string it, description it)) get_option_types

found : (x : OptionType) → first_case string (string x) get_option_types ≡ some x
unfolding first_case string
found opt_allow_cacheread = refl
found opt_allow_cachewrite = refl
found opt_allow_distribution = refl
found opt_allow_relativepath = refl
found opt_allow_responsefile = refl
found opt_allow_sourcedependencies = refl
found opt_propagate_inputs = refl
found opt_high_priority = refl

pub set_iff :
    (in_ : Bytes) (x : OptionType)
    → is_ascii in_ ≡ true
    → (set in_ ≡ some x) ↔ (to_upper in_ ≡ string x)
unfolding set
set_iff in_ x ascii = first_case_iff string get_option_types (found x) (to_upper in_)

pub offered : (x : OptionType) → elem (string x) (map (λ it. it.0) auto_complete) ≡ true
unfolding string auto_complete
offered opt_allow_cacheread = refl
offered opt_allow_cachewrite = refl
offered opt_allow_distribution = refl
offered opt_allow_relativepath = refl
offered opt_allow_responsefile = refl
offered opt_allow_sourcedependencies = refl
offered opt_propagate_inputs = refl
offered opt_high_priority = refl

upper : (x : OptionType) → to_upper (string x) ≡ string x
unfolding to_upper string
upper opt_allow_cacheread = refl
upper opt_allow_cachewrite = refl
upper opt_allow_distribution = refl
upper opt_allow_relativepath = refl
upper opt_allow_responsefile = refl
upper opt_allow_sourcedependencies = refl
upper opt_propagate_inputs = refl
upper opt_high_priority = refl

ascii : (x : OptionType) → is_ascii (string x) ≡ true
unfolding string
ascii opt_allow_cacheread = refl
ascii opt_allow_cachewrite = refl
ascii opt_allow_distribution = refl
ascii opt_allow_relativepath = refl
ascii opt_allow_responsefile = refl
ascii opt_allow_sourcedependencies = refl
ascii opt_propagate_inputs = refl
ascii opt_high_priority = refl

pub reads : IsRead to_upper string set
reads = record { set-string = λ x. (set_iff (string x) x (ascii x)).1 (upper x); set_iff = set_iff }
