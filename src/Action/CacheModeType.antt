-- ===== src/Action/CacheModeType.antt =====
-- `CacheModeType` of action/ActionCache.go.
use ppb.Prelude.{
  ◌≡◌, refl, ◌↔◌, Bool, true, false, Option, some, List, [], ◌∷◌, map, Bytes, is_ascii, elem,
  nat_comparable, list_comparable,
}
use ppb.Switch.{codes, to_upper, first_case, first_case_iff, IsRead}

pub data CacheModeType : Type 0 where
  cache_inherit cache_none cache_read cache_readwrite : CacheModeType

abbrev pub get_cache_mode_types : List CacheModeType
get_cache_mode_types = cache_inherit ∷ cache_none ∷ cache_read ∷ cache_readwrite ∷ []

unfoldable pub description : CacheModeType → Bytes
description cache_inherit = codes "inherit from default configuration"
description cache_none = codes "disable cache"
description cache_read = codes "enable fetching from cache"
description cache_readwrite = codes "enable both fetching from and writing to cache"

unfoldable pub string : CacheModeType → Bytes
string cache_inherit = codes "INHERIT"
string cache_none = codes "NONE"
string cache_read = codes "READ"
string cache_readwrite = codes "READWRITE"

-- The cases compare the upper-case input with the text of each constant.
unfoldable pub set : Bytes → Option CacheModeType
unfolding first_case string to_upper
set in_ = first_case string (to_upper in_) get_cache_mode_types

unfoldable pub has_read : CacheModeType → Bool
has_read cache_inherit = false
has_read cache_none = false
has_read cache_read = true
has_read cache_readwrite = true

unfoldable pub has_write : CacheModeType → Bool
has_write cache_inherit = false
has_write cache_none = false
has_write cache_read = false
has_write cache_readwrite = true

unfoldable pub is_disabled : CacheModeType → Bool
is_disabled cache_inherit = true
is_disabled cache_none = true
is_disabled cache_read = false
is_disabled cache_readwrite = false

unfoldable pub is_inheritable : CacheModeType → Bool
is_inheritable cache_inherit = true
is_inheritable cache_none = false
is_inheritable cache_read = false
is_inheritable cache_readwrite = false

-- What is added, in order.
unfoldable pub auto_complete : List (Bytes × Bytes)
unfolding string description
auto_complete = map (λ it. (string it, description it)) get_cache_mode_types

found : (x : CacheModeType) → first_case string (string x) get_cache_mode_types ≡ some x
unfolding first_case string
found cache_inherit = refl
found cache_none = refl
found cache_read = refl
found cache_readwrite = refl

pub set_iff :
    (in_ : Bytes) (x : CacheModeType)
    → is_ascii in_ ≡ true
    → (set in_ ≡ some x) ↔ (to_upper in_ ≡ string x)
unfolding set
set_iff in_ x ascii = first_case_iff string get_cache_mode_types (found x) (to_upper in_)

pub offered : (x : CacheModeType) → elem (string x) (map (λ it. it.0) auto_complete) ≡ true
unfolding string auto_complete
offered cache_inherit = refl
offered cache_none = refl
offered cache_read = refl
offered cache_readwrite = refl

upper : (x : CacheModeType) → to_upper (string x) ≡ string x
unfolding to_upper string
upper cache_inherit = refl
upper cache_none = refl
upper cache_read = refl
upper cache_readwrite = refl

ascii : (x : CacheModeType) → is_ascii (string x) ≡ true
unfolding string
ascii cache_inherit = refl
ascii cache_none = refl
ascii cache_read = refl
ascii cache_readwrite = refl

pub reads : IsRead to_upper string set
reads = record { set-string = λ x. (set_iff (string x) x (ascii x)).1 (upper x); set_iff = set_iff }
