-- ===== src/Compile/Enums/ArchType.antt =====
-- `ArchType` of compile/Enums.go.
use ppb.Prelude.{
  ◌≡◌, refl, ◌↔◌, true, Option, some, List, [], ◌∷◌, map, Bytes, is_ascii, elem, nat_comparable,
  list_comparable,
}
use ppb.Switch.{codes, to_upper, first_case, first_case_iff}

pub data ArchType : Type 0 where
  arch_x86 arch_x64 arch_arm arch_arm64 : ArchType

abbrev pub get_arch_types : List ArchType
get_arch_types = arch_x86 ∷ arch_x64 ∷ arch_arm ∷ arch_arm64 ∷ []

unfoldable pub description : ArchType → Bytes
description arch_x86 = codes "Intel x86 32 bits"
description arch_x64 = codes "AMD x64 64 bits"
description arch_arm = codes "unknown ARM 32 bits"
description arch_arm64 = codes "unknown ARM64 64 bits"

unfoldable pub string : ArchType → Bytes
string arch_x86 = codes "x86"
string arch_x64 = codes "x64"
string arch_arm = codes "ARM"
string arch_arm64 = codes "ARM64"

-- The cases compare the upper-case input with the text of each constant.
unfoldable pub set : Bytes → Option ArchType
unfolding first_case string to_upper
set in_ = first_case string (to_upper in_) get_arch_types

-- What is added, in order.
unfoldable pub auto_complete : List (Bytes × Bytes)
unfolding string description
auto_complete = map (λ it. (string it, description it)) get_arch_types

found : (x : ArchType) → first_case string (string x) get_arch_types ≡ some x
unfolding first_case string
found arch_x86 = refl
found arch_x64 = refl
found arch_arm = refl
found arch_arm64 = refl

pub set_iff :
    (in_ : Bytes) (x : ArchType)
    → is_ascii in_ ≡ true
    → (set in_ ≡ some x) ↔ (to_upper in_ ≡ string x)
unfolding set
set_iff in_ x ascii = first_case_iff string get_arch_types (found x) (to_upper in_)

pub offered : (x : ArchType) → elem (string x) (map (λ it. it.0) auto_complete) ≡ true
unfolding string auto_complete
offered arch_x86 = refl
offered arch_x64 = refl
offered arch_arm = refl
offered arch_arm64 = refl
