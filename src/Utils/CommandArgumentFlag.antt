-- ===== src/Utils/CommandArgumentFlag.antt =====
-- `CommandArgumentFlag` of utils/Command.go.
use ppb.Prelude.{
  ◌≡◌, refl, ◌↔◌, true, Option, some, List, [], ◌∷◌, map, Bytes, is_ascii, elem, ℕ, ◌%◌, ◌<◌, arith,
  nat_comparable, list_comparable,
}
use ppb.Switch.{codes, to_upper, first_case, first_case_iff, nth_constant, IsRead}

pub data CommandArgumentFlag : Type 0 where
  commandarg_persistent commandarg_consume commandarg_optional commandarg_variadic :
      CommandArgumentFlag

abbrev pub get_command_argument_flags : List CommandArgumentFlag
get_command_argument_flags =
    commandarg_persistent ∷ commandarg_consume ∷ commandarg_optional ∷ commandarg_variadic ∷ []

unfoldable pub ord : CommandArgumentFlag → ℕ
ord commandarg_persistent = 0
ord commandarg_consume = 1
ord commandarg_optional = 2
ord commandarg_variadic = 3

-- The conversion to `byte`. `none` is a value that is no constant.
unfoldable pub from_ord : ℕ → Option CommandArgumentFlag
unfolding nth_constant
from_ord v = nth_constant get_command_argument_flags (v % 256)

pub from_ord-ord : (x : CommandArgumentFlag) → from_ord (ord x) ≡ some x
unfolding from_ord ord nth_constant
from_ord-ord commandarg_persistent = refl
from_ord-ord commandarg_consume = refl
from_ord-ord commandarg_optional = refl
from_ord-ord commandarg_variadic = refl

pub ord_lt : (x : CommandArgumentFlag) → ord x < 32
unfolding ord
ord_lt commandarg_persistent = omega arith
ord_lt commandarg_consume = omega arith
ord_lt commandarg_optional = omega arith
ord_lt commandarg_variadic = omega arith

unfoldable pub description : CommandArgumentFlag → Bytes
description commandarg_persistent =
    codes "value is stored in the config and restored at every launch"
description commandarg_consume =
    codes
      "value does not expect a prefix switch, and should be consumed from command-line first free argument"
description commandarg_optional = codes "value does not need to specified on the command-line"
description commandarg_variadic = codes "multiple values can be specified"

unfoldable pub string : CommandArgumentFlag → Bytes
string commandarg_persistent = codes "PERSISTENT"
string commandarg_consume = codes "CONSUME"
string commandarg_optional = codes "OPTIONAL"
string commandarg_variadic = codes "VARIADIC"

-- The cases compare the upper-case input with the text of each constant.
unfoldable pub set : Bytes → Option CommandArgumentFlag
unfolding first_case string to_upper
set in_ = first_case string (to_upper in_) get_command_argument_flags

-- What is added, in order.
unfoldable pub auto_complete : List (Bytes × Bytes)
unfolding string description
auto_complete = map (λ it. (string it, description it)) get_command_argument_flags

found : (x : CommandArgumentFlag) → first_case string (string x) get_command_argument_flags ≡ some x
unfolding first_case string
found commandarg_persistent = refl
found commandarg_consume = refl
found commandarg_optional = refl
found commandarg_variadic = refl

pub set_iff :
    (in_ : Bytes) (x : CommandArgumentFlag)
    → is_ascii in_ ≡ true
    → (set in_ ≡ some x) ↔ (to_upper in_ ≡ string x)
unfolding set
set_iff in_ x ascii = first_case_iff string get_command_argument_flags (found x) (to_upper in_)

pub offered : (x : CommandArgumentFlag) → elem (string x) (map (λ it. it.0) auto_complete) ≡ true
unfolding string auto_complete
offered commandarg_persistent = refl
offered commandarg_consume = refl
offered commandarg_optional = refl
offered commandarg_variadic = refl

upper : (x : CommandArgumentFlag) → to_upper (string x) ≡ string x
unfolding to_upper string
upper commandarg_persistent = refl
upper commandarg_consume = refl
upper commandarg_optional = refl
upper commandarg_variadic = refl

ascii : (x : CommandArgumentFlag) → is_ascii (string x) ≡ true
unfolding string
ascii commandarg_persistent = refl
ascii commandarg_consume = refl
ascii commandarg_optional = refl
ascii commandarg_variadic = refl

pub reads : IsRead to_upper string set
reads = record { set-string = λ x. (set_iff (string x) x (ascii x)).1 (upper x); set_iff = set_iff }
