-- ===== src/Ufs/Runs.antt =====
-- Runs on concrete paths.
use ppb.Prelude.{◌≡◌, refl, true, none, some, List, [], ◌∷◌, ◌++◌, Bytes}
use ppb.Ufs.{
  first_index_of_path_separator, last_index_of_path_separator, join_path, split_path, sanitize_path,
}
use ppb.Ufs.Runes.{range}
use ppb.Ufs.Split.{split_path-join_path}
use ppb.Ufs.Clean.{clean}
use ppb.Ufs.Rooted.{are_names, rooted}
use ppb.Ufs.Directory
use ppb.Ufs.Directory.{Directory, make_directory, folder, parent, split, is_parent_of}
use ppb.Ufs.Filename
use ppb.Ufs.Filename.{Filename, make_filename, string, ext, trim_ext, replace_ext}
use ppb.Ufs.RoundTrip.{
  split-folder, normalize-make_directory, make_filename-string, root_file_loses_root,
}

-- "/a", "/ab" and "/a/b.c"
abbrev a : Bytes
a = b'a' ∷ []

abbrev b_c : Bytes
b_c = b'b' ∷ b'.' ∷ b'c' ∷ []

abbrev dir_a : Directory
dir_a = record { path = b'/' ∷ a }

abbrev dir_ab : Directory
dir_ab = record { path = b'/' ∷ b'a' ∷ b'b' ∷ [] }

abbrev file : Filename
file = record { dirname = dir_a; basename = b_c }

split_path-join_path_example :
    (path : Bytes) × (join_path true a (b_c ∷ a ∷ []) ≡ some path)
    × (split_path path ≡ a ∷ b_c ∷ a ∷ [])
split_path-join_path_example = split_path-join_path true a (b_c ∷ a ∷ []) refl refl

split-folder_example :
    (e : Directory) × (folder true dir_a (b_c ∷ []) ≡ some e)
    × (split e ≡ some (dir_a, b_c))
    × (parent e ≡ some dir_a)
    × (Directory.basename e ≡ b_c)
split-folder_example = split-folder true dir_a b_c refl refl refl refl

-- "/a//./b/../b.c/"
abbrev unclean : Bytes
unclean =
    b'/' ∷ b'a' ∷ b'/' ∷ b'/' ∷ b'.' ∷ b'/' ∷ b'b' ∷ b'/' ∷ b'.' ∷ b'.' ∷ b'/' ∷ b_c ++ b'/' ∷ []

cleaned_up : clean unclean ≡ b'/' ∷ b'a' ∷ b'/' ∷ b_c
unfolding clean
cleaned_up = refl

normalize-make_directory_example :
    (d : Directory) × (make_directory true none unclean ≡ some d)
    × (Directory.normalize true none d ≡ some d)
    × (names : List Bytes) × (are_names names ≡ true)
    × (d.path ≡ rooted names)
normalize-make_directory_example = normalize-make_directory true none unclean refl

make_filename-string_example :
    (string (record { dirname = record { path = rooted (a ∷ []) }; basename = b_c })
      ≡ rooted (a ∷ b_c ∷ []))
    × (make_filename true none
          (string (record { dirname = record { path = rooted (a ∷ []) }; basename = b_c }))
        ≡ some (record { dirname = record { path = rooted (a ∷ []) }; basename = b_c }))
make_filename-string_example = make_filename-string true none a [] b_c refl refl

root_file_loses_root_example :
    (f : Filename) × (make_filename true none (rooted (b_c ∷ [])) ≡ some f)
    × (string f ≡ b_c)
    × (Filename.normalize true none f ≡ none)
root_file_loses_root_example = root_file_loses_root true none b_c refl

-- "/é/é": the search for the last separator passes over both.
abbrev accents : Bytes
accents = b'/' ∷ 195 ∷ 169 ∷ b'/' ∷ 195 ∷ 169 ∷ []

last_index_accents : last_index_of_path_separator accents ≡ none
unfolding last_index_of_path_separator range
last_index_accents = refl

-- The parent of that directory is a panic.
no_parent : parent (record { path = accents }) ≡ none
unfolding parent last_index_of_path_separator range
no_parent = refl

-- "aįb": the rune U+012F is taken for a separator, and its second byte stays.
abbrev ogonek : Bytes
ogonek = b'a' ∷ 196 ∷ 175 ∷ b'b' ∷ []

split_ogonek : split_path ogonek ≡ (b'a' ∷ []) ∷ (175 ∷ b'b' ∷ []) ∷ []
unfolding split_path first_index_of_path_separator range
split_ogonek = refl

sanitize_ogonek : sanitize_path ogonek b'/' ≡ b'a' ∷ b'/' ∷ b'b' ∷ []
unfolding sanitize_path range
sanitize_ogonek = refl

-- "/a" is a parent of "/ab".
sibling : is_parent_of dir_a dir_ab ≡ true
unfolding is_parent_of
sibling = refl

replace_ext_file :
    replace_ext file (b'.' ∷ b'o' ∷ []) ≡ record file { basename = b'b' ∷ b'.' ∷ b'o' ∷ [] }
unfolding replace_ext trim_ext ext Filename.trim_suffix Filename.ext_of
replace_ext_file = refl
