-- ===== src/Compression/CompressionLevel.antt =====
-- `CompressionLevel` of internal/base/Compression.go.
use ppb.Prelude.{
  ◌≡◌, refl, ◌↔◌, Bool, true, false, Option, some, List, [], ◌∷◌, map, Bytes, is_ascii, elem,
  nat_comparable, list_comparable,
}
use ppb.Switch.{codes, to_upper, first_case, first_case_iff, IsRead}

pub data CompressionLevel : Type 0 where
  compression_level_inherit compression_level_fast compression_level_balanced
        compression_level_best :
      CompressionLevel

abbrev pub get_compression_levels : List CompressionLevel
get_compression_levels =
    compression_level_inherit ∷ compression_level_fast ∷ compression_level_balanced
    ∷ compression_level_best ∷ []

unfoldable pub description : CompressionLevel → Bytes
description compression_level_inherit = codes "inherit default value from configuration"
description compression_level_fast = codes "faster compression times with lower compression ratio"
description compression_level_balanced = codes "balance between times ratio and compression ratio"
description compression_level_best =
    codes "best compression ratio possible, but much slower compression times"

unfoldable pub string : CompressionLevel → Bytes
string compression_level_inherit = codes "INHERIT"
string compression_level_fast = codes "FAST"
string compression_level_balanced = codes "BALANCED"
string compression_level_best = codes "BEST"

-- The cases compare the upper-case input with the text of each constant.
unfoldable pub set : Bytes → Option CompressionLevel
unfolding first_case string to_upper
set in_ = first_case string (to_upper in_) get_compression_levels

unfoldable pub is_inheritable : CompressionLevel → Bool
is_inheritable compression_level_inherit = true
is_inheritable compression_level_fast = false
is_inheritable compression_level_balanced = false
is_inheritable compression_level_best = false

-- What is added, in order.
unfoldable pub auto_complete : List (Bytes × Bytes)
unfolding string description
auto_complete = map (λ it. (string it, description it)) get_compression_levels

found : (x : CompressionLevel) → first_case string (string x) get_compression_levels ≡ some x
unfolding first_case string
found compression_level_inherit = refl
found compression_level_fast = refl
found compression_level_balanced = refl
found compression_level_best = refl

pub set_iff :
    (in_ : Bytes) (x : CompressionLevel)
    → is_ascii in_ ≡ true
    → (set in_ ≡ some x) ↔ (to_upper in_ ≡ string x)
unfolding set
set_iff in_ x ascii = first_case_iff string get_compression_levels (found x) (to_upper in_)

pub offered : (x : CompressionLevel) → elem (string x) (map (λ it. it.0) auto_complete) ≡ true
unfolding string auto_complete
offered compression_level_inherit = refl
offered compression_level_fast = refl
offered compression_level_balanced = refl
offered compression_level_best = refl

upper : (x : CompressionLevel) → to_upper (string x) ≡ string x
unfolding to_upper string
upper compression_level_inherit = refl
upper compression_level_fast = refl
upper compression_level_balanced = refl
upper compression_level_best = refl

ascii : (x : CompressionLevel) → is_ascii (string x) ≡ true
unfolding string
ascii compression_level_inherit = refl
ascii compression_level_fast = refl
ascii compression_level_balanced = refl
ascii compression_level_best = refl

pub reads : IsRead to_upper string set
reads = record { set-string = λ x. (set_iff (string x) x (ascii x)).1 (upper x); set_iff = set_iff }
