-- ===== src/Compile/Enums/PayloadType.antt =====
-- `PayloadType` of compile/Enums.go.
use ppb.Prelude.{
  ◌≡◌, refl, ◌↔◌, Bool, true, false, Option, some, List, [], ◌∷◌, map, Bytes, is_ascii, elem, ℕ,
  ◌%◌, ◌<◌, arith, nat_comparable, list_comparable,
}
use ppb.Switch.{codes, to_upper, first_case, first_case_iff, nth_constant, IsRead}

pub data PayloadType : Type 0 where
  payload_executable payload_objectlist payload_staticlib payload_sharedlib payload_headerunit
        payload_precompiledheader payload_precompiledobject payload_headers payload_sources
        payload_debugsymbols payload_dependencies :
      PayloadType

abbrev pub get_payload_types : List PayloadType
get_payload_types =
    payload_executable ∷ payload_objectlist ∷ payload_staticlib ∷ payload_sharedlib
    ∷ payload_headerunit ∷ payload_precompiledheader ∷ payload_precompiledobject ∷ payload_headers
    ∷ payload_sources ∷ payload_debugsymbols ∷ payload_dependencies ∷ []

unfoldable pub ord : PayloadType → ℕ
ord payload_executable = 0
ord payload_objectlist = 1
ord payload_staticlib = 2
ord payload_sharedlib = 3
ord payload_headerunit = 4
ord payload_precompiledheader = 5
ord payload_precompiledobject = 6
ord payload_headers = 7
ord payload_sources = 8
ord payload_debugsymbols = 9
ord payload_dependencies = 10

-- The conversion to `byte`. `none` is a value that is no constant.
unfoldable pub from_ord : ℕ → Option PayloadType
unfolding nth_constant
from_ord v = nth_constant get_payload_types (v % 256)

pub from_ord-ord : (x : PayloadType) → from_ord (ord x) ≡ some x
unfolding from_ord ord nth_constant
from_ord-ord payload_executable = refl
from_ord-ord payload_objectlist = refl
from_ord-ord payload_staticlib = refl
from_ord-ord payload_sharedlib = refl
from_ord-ord payload_headerunit = refl
from_ord-ord payload_precompiledheader = refl
from_ord-ord payload_precompiledobject = refl
from_ord-ord payload_headers = refl
from_ord-ord payload_sources = refl
from_ord-ord payload_debugsymbols = refl
from_ord-ord payload_dependencies = refl

pub ord_lt : (x : PayloadType) → ord x < 32
unfolding ord
ord_lt payload_executable = omega arith
ord_lt payload_objectlist = omega arith
ord_lt payload_staticlib = omega arith
ord_lt payload_sharedlib = omega arith
ord_lt payload_headerunit = omega arith
ord_lt payload_precompiledheader = omega arith
ord_lt payload_precompiledobject = omega arith
ord_lt payload_headers = omega arith
ord_lt payload_sources = omega arith
ord_lt payload_debugsymbols = omega arith
ord_lt payload_dependencies = omega arith

unfoldable pub description : PayloadType → Bytes
description payload_executable = codes "executable program"
description payload_objectlist = codes "collection of compiled objects"
description payload_staticlib = codes "static library"
description payload_sharedlib = codes "shared dynamic library"
description payload_headerunit = codes "header unit"
description payload_precompiledheader = codes "shared precompiled header"
description payload_precompiledobject = codes "precompiled header object"
description payload_headers = codes "header files"
description payload_sources = codes "source files"
description payload_debugsymbols = codes "program debugging database"
description payload_dependencies = codes "source file dependency list"

unfoldable pub string : PayloadType → Bytes
string payload_executable = codes "EXECUTABLE"
string payload_objectlist = codes "OBJECTLIST"
string payload_staticlib = codes "STATICLIB"
string payload_sharedlib = codes "SHAREDLIB"
string payload_headerunit = codes "HEADERUNIT"
string payload_precompiledheader = codes "PRECOMPILEDHEADER"
string payload_precompiledobject = codes "PRECOMPILEDOBJECT"
string payload_headers = codes "HEADERS"
string payload_sources = codes "SOURCES"
string payload_debugsymbols = codes "DEBUGSYMBOLS"
string payload_dependencies = codes "DEPENDENCIES"

-- The cases compare the upper-case input with the text of each constant.
unfoldable pub set : Bytes → Option PayloadType
unfolding first_case string to_upper
set in_ = first_case string (to_upper in_) get_payload_types

unfoldable pub has_linker : PayloadType → Bool
has_linker payload_executable = true
has_linker payload_objectlist = false
has_linker payload_staticlib = false
has_linker payload_sharedlib = true
has_linker payload_headerunit = false
has_linker payload_precompiledheader = false
has_linker payload_precompiledobject = false
has_linker payload_headers = false
has_linker payload_sources = false
has_linker payload_debugsymbols = false
has_linker payload_dependencies = false

unfoldable pub has_output : PayloadType → Bool
has_output payload_executable = true
has_output payload_objectlist = true
has_output payload_staticlib = true
has_output payload_sharedlib = true
has_output payload_headerunit = true
has_output payload_precompiledheader = false
has_output payload_precompiledobject = false
has_output payload_headers = false
has_output payload_sources = false
has_output payload_debugsymbols = false
has_output payload_dependencies = false

unfoldable pub has_multiple_input : PayloadType → Bool
has_multiple_input payload_executable = true
has_multiple_input payload_objectlist = false
has_multiple_input payload_staticlib = true
has_multiple_input payload_sharedlib = true
has_multiple_input payload_headerunit = false
has_multiple_input payload_precompiledheader = false
has_multiple_input payload_precompiledobject = false
has_multiple_input payload_headers = false
has_multiple_input payload_sources = false
has_multiple_input payload_debugsymbols = false
has_multiple_input payload_dependencies = false

-- What is added, in order.
unfoldable pub auto_complete : List (Bytes × Bytes)
unfolding string description
auto_complete = map (λ it. (string it, description it)) get_payload_types

found : (x : PayloadType) → first_case string (string x) get_payload_types ≡ some x
unfolding first_case string
found payload_executable = refl
found payload_objectlist = refl
found payload_staticlib = refl
found payload_sharedlib = refl
found payload_headerunit = refl
found payload_precompiledheader = refl
found payload_precompiledobject = refl
found payload_headers = refl
found payload_sources = refl
found payload_debugsymbols = refl
found payload_dependencies = refl

pub set_iff :
    (in_ : Bytes) (x : PayloadType)
    → is_ascii in_ ≡ true
    → (set in_ ≡ some x) ↔ (to_upper in_ ≡ string x)
unfolding set
set_iff in_ x ascii = first_case_iff string get_payload_types (found x) (to_upper in_)

pub offered : (x : PayloadType) → elem (string x) (map (λ it. it.0) auto_complete) ≡ true
unfolding string auto_complete
offered payload_executable = refl
offered payload_objectlist = refl
offered payload_staticlib = refl
offered payload_sharedlib = refl
offered payload_headerunit = refl
offered payload_precompiledheader = refl
offered payload_precompiledobject = refl
offered payload_headers = refl
offered payload_sources = refl
offered payload_debugsymbols = refl
offered payload_dependencies = refl

upper : (x : PayloadType) → to_upper (string x) ≡ string x
unfolding to_upper string
upper payload_executable = refl
upper payload_objectlist = refl
upper payload_staticlib = refl
upper payload_sharedlib = refl
upper payload_headerunit = refl
upper payload_precompiledheader = refl
upper payload_precompiledobject = refl
upper payload_headers = refl
upper payload_sources = refl
upper payload_debugsymbols = refl
upper payload_dependencies = refl

ascii : (x : PayloadType) → is_ascii (string x) ≡ true
unfolding string
ascii payload_executable = refl
ascii payload_objectlist = refl
ascii payload_staticlib = refl
ascii payload_sharedlib = refl
ascii payload_headerunit = refl
ascii payload_precompiledheader = refl
ascii payload_precompiledobject = refl
ascii payload_headers = refl
ascii payload_sources = refl
ascii payload_debugsymbols = refl
ascii payload_dependencies = refl

pub reads : IsRead to_upper string set
reads = record { set-string = λ x. (set_iff (string x) x (ascii x)).1 (upper x); set_iff = set_iff }
