-- ===== src/Hal/Linux/DumpRecordLayoutsType.antt =====
-- `DumpRecordLayoutsType` of internal/hal/linux/Enums.go.
use ppb.Prelude.{
  ◌≡◌, refl, ◌↔◌, true, Option, some, List, [], ◌∷◌, map, Bytes, is_ascii, elem, nat_comparable,
  list_comparable,
}
use ppb.Switch.{codes, to_upper, first_case, first_case_iff, IsRead}

pub data DumpRecordLayoutsType : Type 0 where
  dumprecordlayouts_none dumprecordlayouts_simple dumprecordlayouts_full : DumpRecordLayoutsType

abbrev pub dump_record_layouts : List DumpRecordLayoutsType
dump_record_layouts =
    dumprecordlayouts_none ∷ dumprecordlayouts_simple ∷ dumprecordlayouts_full ∷ []

unfoldable pub description : DumpRecordLayoutsType → Bytes
description dumprecordlayouts_none = codes "do not dump record layouts"
description dumprecordlayouts_simple = codes "dump simple record layouts"
description dumprecordlayouts_full = codes "dump full record layouts"

unfoldable pub string : DumpRecordLayoutsType → Bytes
string dumprecordlayouts_none = codes "NONE"
string dumprecordlayouts_simple = codes "SIMPLE"
string dumprecordlayouts_full = codes "FULL"

-- The cases compare the upper-case input with the text of each constant.
unfoldable pub set : Bytes → Option DumpRecordLayoutsType
unfolding first_case string to_upper
set in_ = first_case string (to_upper in_) dump_record_layouts

-- What is added, in order.
unfoldable pub auto_complete : List (Bytes × Bytes)
unfolding string description
auto_complete = map (λ it. (string it, description it)) dump_record_layouts

found : (x : DumpRecordLayoutsType) → first_case string (string x) dump_record_layouts ≡ some x
unfolding first_case string
found dumprecordlayouts_none = refl
found dumprecordlayouts_simple = refl
found dumprecordlayouts_full = refl

pub set_iff :
    (in_ : Bytes) (x : DumpRecordLayoutsType)
    → is_ascii in_ ≡ true
    → (set in_ ≡ some x) ↔ (to_upper in_ ≡ string x)
unfolding set
set_iff in_ x ascii = first_case_iff string dump_record_layouts (found x) (to_upper in_)

pub offered : (x : DumpRecordLayoutsType) → elem (string x) (map (λ it. it.0) auto_complete) ≡ true
unfolding string auto_complete
offered dumprecordlayouts_none = refl
offered dumprecordlayouts_simple = refl
offered dumprecordlayouts_full = refl

upper : (x : DumpRecordLayoutsType) → to_upper (string x) ≡ string x
unfolding to_upper string
upper dumprecordlayouts_none = refl
upper dumprecordlayouts_simple = refl
upper dumprecordlayouts_full = refl

ascii : (x : DumpRecordLayoutsType) → is_ascii (string x) ≡ true
unfolding string
ascii dumprecordlayouts_none = refl
ascii dumprecordlayouts_simple = refl
ascii dumprecordlayouts_full = refl

pub reads : IsRead to_upper string set
reads = record { set-string = λ x. (set_iff (string x) x (ascii x)).1 (upper x); set_iff = set_iff }
