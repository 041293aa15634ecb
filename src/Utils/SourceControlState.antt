-- ===== src/Utils/SourceControlState.antt =====
-- `SourceControlState` of utils/SourceControl.go.
use ppb.Prelude.{
  ◌≡◌, refl, ◌↔◌, Bool, true, false, Option, some, List, [], ◌∷◌, map, Bytes, is_ascii, elem,
  nat_comparable, list_comparable,
}
use ppb.Switch.{codes, to_upper, first_case, first_case_iff, IsRead}

pub data SourceControlState : Type 0 where
  sourcecontrol_ignored sourcecontrol_untracked sourcecontrol_uptodate sourcecontrol_modified
        sourcecontrol_added sourcecontrol_deleted sourcecontrol_renamed :
      SourceControlState

abbrev pub get_source_control_states : List SourceControlState
get_source_control_states =
    sourcecontrol_ignored ∷ sourcecontrol_untracked ∷ sourcecontrol_uptodate
    ∷ sourcecontrol_modified ∷ sourcecontrol_added ∷ sourcecontrol_deleted ∷ sourcecontrol_renamed
    ∷ []

unfoldable pub description : SourceControlState → Bytes
description sourcecontrol_ignored = codes "ignored by source control"
description sourcecontrol_untracked = codes "not tracked by source control"
description sourcecontrol_uptodate = codes "all changes are in source control"
description sourcecontrol_modified = codes "local modifications present"
description sourcecontrol_added = codes "added to source control"
description sourcecontrol_deleted = codes "deleted from source control"
description sourcecontrol_renamed = codes "renamed locally"

unfoldable pub string : SourceControlState → Bytes
string sourcecontrol_ignored = codes "IGNORED"
string sourcecontrol_untracked = codes "UNVERSIONED"
string sourcecontrol_uptodate = codes "UPTODATE"
string sourcecontrol_modified = codes "MODIFIED"
string sourcecontrol_added = codes "ADDED"
string sourcecontrol_deleted = codes "DELETED"
string sourcecontrol_renamed = codes "RENAMED"

-- The cases compare the upper-case input with the text of each constant.
unfoldable pub set : Bytes → Option SourceControlState
unfolding first_case string to_upper
set in_ = first_case string (to_upper in_) get_source_control_states

unfoldable pub ignored : SourceControlState → Bool
ignored sourcecontrol_ignored = true
ignored sourcecontrol_untracked = false
ignored sourcecontrol_uptodate = false
ignored sourcecontrol_modified = false
ignored sourcecontrol_added = false
ignored sourcecontrol_deleted = false
ignored sourcecontrol_renamed = false

-- What is added, in order.
unfoldable pub auto_complete : List (Bytes × Bytes)
unfolding string description
auto_complete = map (λ it. (string it, description it)) get_source_control_states

found : (x : SourceControlState) → first_case string (string x) get_source_control_states ≡ some x
unfolding first_case string
found sourcecontrol_ignored = refl
found sourcecontrol_untracked = refl
found sourcecontrol_uptodate = refl
found sourcecontrol_modified = refl
found sourcecontrol_added = refl
found sourcecontrol_deleted = refl
found sourcecontrol_renamed = refl

pub set_iff :
    (in_ : Bytes) (x : SourceControlState)
    → is_ascii in_ ≡ true
    → (set in_ ≡ some x) ↔ (to_upper in_ ≡ string x)
unfolding set
set_iff in_ x ascii = first_case_iff string get_source_control_states (found x) (to_upper in_)

pub offered : (x : SourceControlState) → elem (string x) (map (λ it. it.0) auto_complete) ≡ true
unfolding string auto_complete
offered sourcecontrol_ignored = refl
offered sourcecontrol_untracked = refl
offered sourcecontrol_uptodate = refl
offered sourcecontrol_modified = refl
offered sourcecontrol_added = refl
offered sourcecontrol_deleted = refl
offered sourcecontrol_renamed = refl

upper : (x : SourceControlState) → to_upper (string x) ≡ string x
unfolding to_upper string
upper sourcecontrol_ignored = refl
upper sourcecontrol_untracked = refl
upper sourcecontrol_uptodate = refl
upper sourcecontrol_modified = refl
upper sourcecontrol_added = refl
upper sourcecontrol_deleted = refl
upper sourcecontrol_renamed = refl

ascii : (x : SourceControlState) → is_ascii (string x) ≡ true
unfolding string
ascii sourcecontrol_ignored = refl
ascii sourcecontrol_untracked = refl
ascii sourcecontrol_uptodate = refl
ascii sourcecontrol_modified = refl
ascii sourcecontrol_added = refl
ascii sourcecontrol_deleted = refl
ascii sourcecontrol_renamed = refl

pub reads : IsRead to_upper string set
reads = record { set-string = λ x. (set_iff (string x) x (ascii x)).1 (upper x); set_iff = set_iff }
