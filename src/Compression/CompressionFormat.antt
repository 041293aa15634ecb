-- ===== src/Compression/CompressionFormat.antt =====
-- `CompressionFormat` of internal/base/Compression.go.
use ppb.Prelude.{
  ◌≡◌, refl, ◌↔◌, Bool, true, false, Option, some, List, [], ◌∷◌, map, Bytes, is_ascii, elem,
  nat_comparable, list_comparable,
}
use ppb.Switch.{codes, to_upper, first_case, first_case_iff, IsRead}

pub data CompressionFormat : Type 0 where
  compression_format_inherit compression_format_lz4 compression_format_zstd : CompressionFormat

abbrev pub get_compression_formats : List CompressionFormat
get_compression_formats =
    compression_format_inherit ∷ compression_format_lz4 ∷ compression_format_zstd ∷ []

unfoldable pub description : CompressionFormat → Bytes
description compression_format_inherit = codes "inherit default value from configuration"
description compression_format_lz4 =
    codes "use extremely fast LZ4 compression from https://github.com/lz4/lz4"
description compression_format_zstd =
    codes "use facebook ZStandard compression from https://github.com/facebook/zstd"

unfoldable pub string : CompressionFormat → Bytes
string compression_format_inherit = codes "INHERIT"
string compression_format_lz4 = codes "LZ4"
string compression_format_zstd = codes "ZSTD"

-- The cases compare the upper-case input with the text of each constant.
unfoldable pub set : Bytes → Option CompressionFormat
unfolding first_case string to_upper
set in_ = first_case string (to_upper in_) get_compression_formats

unfoldable pub is_inheritable : CompressionFormat → Bool
is_inheritable compression_format_inherit = true
is_inheritable compression_format_lz4 = false
is_inheritable compression_format_zstd = false

-- What is added, in order.
unfoldable pub auto_complete : List (Bytes × Bytes)
unfolding string description
auto_complete = map (λ it. (string it, description it)) get_compression_formats

found : (x : CompressionFormat) → first_case string (string x) get_compression_formats ≡ some x
unfolding first_case string
found compression_format_inherit = refl
found compression_format_lz4 = refl
found compression_format_zstd = refl

pub set_iff :
    (in_ : Bytes) (x : CompressionFormat)
    → is_ascii in_ ≡ true
    → (set in_ ≡ some x) ↔ (to_upper in_ ≡ string x)
unfolding set
set_iff in_ x ascii = first_case_iff string get_compression_formats (found x) (to_upper in_)

pub offered : (x : CompressionFormat) → elem (string x) (map (λ it. it.0) auto_complete) ≡ true
unfolding string auto_complete
offered compression_format_inherit = refl
offered compression_format_lz4 = refl
offered compression_format_zstd = refl

upper : (x : CompressionFormat) → to_upper (string x) ≡ string x
unfolding to_upper string
upper compression_format_inherit = refl
upper compression_format_lz4 = refl
upper compression_format_zstd = refl

ascii : (x : CompressionFormat) → is_ascii (string x) ≡ true
unfolding string
ascii compression_format_inherit = refl
ascii compression_format_lz4 = refl
ascii compression_format_zstd = refl

pub reads : IsRead to_upper string set
reads = record { set-string = λ x. (set_iff (string x) x (ascii x)).1 (upper x); set_iff = set_iff }
