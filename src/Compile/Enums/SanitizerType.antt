-- ===== src/Compile/Enums/SanitizerType.antt =====
-- `SanitizerType` of compile/Enums.go.
use ppb.Prelude.{
  ◌≡◌, refl, ◌↔◌, Bool, true, false, Option, some, List, [], ◌∷◌, map, Bytes, is_ascii, elem,
  nat_comparable, list_comparable,
}
use ppb.Switch.{codes, to_upper, first_case, first_case_iff, IsRead}

pub data SanitizerType : Type 0 where
  sanitizer_inherit sanitizer_none sanitizer_address sanitizer_fuzzer sanitizer_thread
        sanitizer_undefined_behavior :
      SanitizerType

abbrev pub get_sanitizer_types : List SanitizerType
get_sanitizer_types =
    sanitizer_inherit ∷ sanitizer_none ∷ sanitizer_address ∷ sanitizer_fuzzer ∷ sanitizer_thread
    ∷ sanitizer_undefined_behavior ∷ []

unfoldable pub description : SanitizerType → Bytes
description sanitizer_inherit = codes "inherit default value from configuration"
description sanitizer_none = codes "don't use a sanitizer"
description sanitizer_address = codes "use address sanitizer for memory issues"
description sanitizer_fuzzer = codes "use fuzzer sanitizer on progam user-inputs"
description sanitizer_thread = codes "use thread sanitizer for race conditions"
description sanitizer_undefined_behavior = codes "use undefined behavior sanitizer to bad practices"

unfoldable pub string : SanitizerType → Bytes
string sanitizer_inherit = codes "INHERIT"
string sanitizer_none = codes "NONE"
string sanitizer_address = codes "ADDRESS"
string sanitizer_fuzzer = codes "FUZZER"
string sanitizer_thread = codes "THREAD"
string sanitizer_undefined_behavior = codes "UNDEFINED_BEHAVIOR"

-- The cases compare the upper-case input with the text of each constant.
unfoldable pub set : Bytes → Option SanitizerType
unfolding first_case string to_upper
set in_ = first_case string (to_upper in_) get_sanitizer_types

unfoldable pub is_enabled : SanitizerType → Bool
is_enabled sanitizer_inherit = false
is_enabled sanitizer_none = false
is_enabled sanitizer_address = true
is_enabled sanitizer_fuzzer = true
is_enabled sanitizer_thread = true
is_enabled sanitizer_undefined_behavior = true

unfoldable pub is_inheritable : SanitizerType → Bool
is_inheritable sanitizer_inherit = true
is_inheritable sanitizer_none = false
is_inheritable sanitizer_address = false
is_inheritable sanitizer_fuzzer = false
is_inheritable sanitizer_thread = false
is_inheritable sanitizer_undefined_behavior = false

-- What is added, in order.
unfoldable pub auto_complete : List (Bytes × Bytes)
unfolding string description
auto_complete = map (λ it. (string it, description it)) get_sanitizer_types

found : (x : SanitizerType) → first_case string (string x) get_sanitizer_types ≡ some x
unfolding first_case string
found sanitizer_inherit = refl
found sanitizer_none = refl
found sanitizer_address = refl
found sanitizer_fuzzer = refl
found sanitizer_thread = refl
found sanitizer_undefined_behavior = refl

pub set_iff :
    (in_ : Bytes) (x : SanitizerType)
    → is_ascii in_ ≡ true
    → (set in_ ≡ some x) ↔ (to_upper in_ ≡ string x)
unfolding set
set_iff in_ x ascii = first_case_iff string get_sanitizer_types (found x) (to_upper in_)

pub offered : (x : SanitizerType) → elem (string x) (map (λ it. it.0) auto_complete) ≡ true
unfolding string auto_complete
offered sanitizer_inherit = refl
offered sanitizer_none = refl
offered sanitizer_address = refl
offered sanitizer_fuzzer = refl
offered sanitizer_thread = refl
offered sanitizer_undefined_behavior = refl

upper : (x : SanitizerType) → to_upper (string x) ≡ string x
unfolding to_upper string
upper sanitizer_inherit = refl
upper sanitizer_none = refl
upper sanitizer_address = refl
upper sanitizer_fuzzer = refl
upper sanitizer_thread = refl
upper sanitizer_undefined_behavior = refl

ascii : (x : SanitizerType) → is_ascii (string x) ≡ true
unfolding string
ascii sanitizer_inherit = refl
ascii sanitizer_none = refl
ascii sanitizer_address = refl
ascii sanitizer_fuzzer = refl
ascii sanitizer_thread = refl
ascii sanitizer_undefined_behavior = refl

pub reads : IsRead to_upper string set
reads = record { set-string = λ x. (set_iff (string x) x (ascii x)).1 (upper x); set_iff = set_iff }
