-- ===== src/EnumSet/Runs.antt =====
-- Runs of the operations of `EnumSet`, on sets of compiler features and of tags.
use ppb.Prelude.{
  ◌≡◌, refl, ℕ, true, false, not, ◌&&◌, ◌||◌, ltb, leb, some, none, [], ◌∷◌, Bytes, arith,
}
use ppb.EnumSet.{
  range, new_enum_set, has, intersect, any, all, greater_than, greater_than_equal, less_than,
  less_than_equal, add, remove, test, select,
}
use ppb.EnumSet.Bits.{elem_ord, has_lem}
use ppb.EnumSet.Slice.{members, range-members}
use ppb.EnumSet.Text.{string, set}
use ppb.EnumSet.Text.RoundTrip.{set-string}
use ppb.Switch.{codes}
use ppb.Compile.Enums.TagType
use ppb.Compile.Enums.TagType.{TagType, tag_debug, tag_devel, tag_test}
use ppb.Compile.Enums.Flags.{tag, tag-IsParsed}

-- `DEBUG` and `TEST`
abbrev tags : ℕ
tags = 33

new_enum_set_run : new_enum_set tag (tag_debug ∷ tag_test ∷ []) ≡ tags
unfolding new_enum_set TagType.ord
new_enum_set_run = refl

any_run : any tag tags (tag_devel ∷ tag_test ∷ []) ≡ true
unfolding any TagType.ord
any_run = refl

all_run : all tag tags (tag_devel ∷ tag_test ∷ []) ≡ false
unfolding all TagType.ord
all_run = refl

string_run : string tag tags ≡ some (codes "TEST|DEBUG")
unfolding string TagType.from_ord TagType.string
string_run = refl

set_run : set tag (codes " debug | TEST") ≡ some tags
unfolding set TagType.set TagType.ord
set_run = refl

set_unknown : set tag (codes "DEBUG|none") ≡ none
unfolding set TagType.set
set_unknown = refl

-- The empty set has the empty text, which `Set` does not take.
string_empty : string tag 0 ≡ some []
unfolding string
string_empty = refl

set_empty : set tag [] ≡ none
unfolding set TagType.set
set_empty = refl

test_run : test tag tags (codes "test") ≡ true
unfolding test TagType.set TagType.ord
test_run = refl

select_run : select tag tags (codes "test") false ≡ some 1
unfolding select TagType.set TagType.ord
select_run = refl

range-members_example : range 8 tags ≡ some (members 8 tags)
range-members_example = range-members 8 8 tags (omega arith) (omega arith) (omega arith)

has_lem_example :
    (has tag (new_enum_set tag (tag_test ∷ [])) tag_test
      ≡ elem_ord tag (TagType.ord tag_test) (tag_test ∷ []))
    × (has tag (add tag tags (tag_test ∷ [])) tag_test
        ≡ (has tag tags tag_test || elem_ord tag (TagType.ord tag_test) (tag_test ∷ [])))
    × (has tag (remove tag tags (tag_test ∷ [])) tag_test
        ≡ (has tag tags tag_test && not (elem_ord tag (TagType.ord tag_test) (tag_test ∷ []))))
    × (has tag (intersect tag tags 32) tag_test ≡ (has tag tags tag_test && has tag 32 tag_test))
    × (has tag (greater_than tag tags tag_devel) tag_test
        ≡ (has tag tags tag_test && ltb (TagType.ord tag_devel) (TagType.ord tag_test)))
    × (has tag (greater_than_equal tag tags tag_devel) tag_test
        ≡ (has tag tags tag_test && leb (TagType.ord tag_devel) (TagType.ord tag_test)))
    × (has tag (less_than tag tags tag_devel) tag_test
        ≡ (has tag tags tag_test && ltb (TagType.ord tag_test) (TagType.ord tag_devel)))
    × (has tag (less_than_equal tag tags tag_devel) tag_test
        ≡ (has tag tags tag_test && leb (TagType.ord tag_test) (TagType.ord tag_devel)))
has_lem_example = has_lem tag TagType.ord_lt tags 32 (tag_test ∷ []) tag_devel tag_test

set-string_example :
    (t : Bytes) × (string tag (new_enum_set tag (tag_debug ∷ tag_test ∷ [])) ≡ some t)
    × (set tag t ≡ some (new_enum_set tag (tag_debug ∷ tag_test ∷ [])))
set-string_example = set-string tag tag-IsParsed tag_debug (tag_test ∷ [])
