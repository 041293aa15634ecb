-- ===== src/Ufs/RoundTrip.antt =====
-- Directories and file names against the texts that they are made from and written as.
use ppb.Prelude.{
  is_ascii, assertion, ◌-◌, ◌≡◌, refl, sym, ap, ◌∙◌, Bool, true, false, ◌&&◌, Option, none, some,
  List, [], ◌∷◌, ◌++◌, Bytes, length, length-append, leb, arith,
}
use mathlib.Core.List.{
  reverse, append_assoc, append-nil, reverse-reverse, reverse-append, reverse-cons,
}
use ppb.Ufs.{is_path_separator, joined, are_full}
use ppb.Ufs.Ascii.{is_ascii-append, is_plain}
use ppb.Ufs.Split.{take-piece, drop-piece}
use ppb.Ufs.Last.{last_index_found}
use ppb.Ufs.Clean.{is_abs, path_of, clean, clean_path}
use ppb.Ufs.Rooted.{
  is_name, are_names, rooted, clean-rooted, clean-abs, path_of-last, are_names-last,
}
use ppb.Ufs.Directory
use ppb.Ufs.Directory.{Directory, make_directory, folder, parent, split}
use ppb.Ufs.Filename
use ppb.Ufs.Filename.{Filename, split_file, split_clean, make_filename, string}

-- For an ASCII directory and an ASCII name without separators, both of which are not empty in a debug
-- build: the folder of that name in the directory is made, has the directory as its parent and the name
-- as its base name, and splits into the two.
pub split-folder :
    (debug : Bool) (d : Directory) (name : Bytes)
    → assertion debug (are_full (d.path ∷ name ∷ [])) ≡ true
    → is_ascii d.path ≡ true
    → is_ascii name ≡ true
    → is_plain name ≡ true
    → (e : Directory) × (folder debug d (name ∷ []) ≡ some e)
      × (split e ≡ some (d, name))
      × (parent e ≡ some d)
      × (Directory.basename e ≡ name)
unfolding split folder parent Directory.basename joined
split-folder debug d name full a a' h =
    let at =
      last_index_found d.path name (ground (arith, is_ascii-append d.path (b'/' ∷ name))) h in
    let first = take-piece d.path (b'/' ∷ name) in
    let second = drop-piece d.path b'/' name in
    (
      record { path = d.path ++ b'/' ∷ name },
      rw full,
      rw (split, at, first, second),
      rw (parent, at, first),
      rw (Directory.basename, at, second),
    )

clean_path-abs :
    (debug : Bool) (wd : Option Bytes) (s : Bytes) (names : List Bytes)
    → is_abs s ≡ true
    → are_names names ≡ true
    → clean s ≡ rooted names
    → clean_path debug wd s ≡ some (rooted names)
unfolding clean_path
clean_path-abs debug wd s names h all e = rw (h, e) (ground (arith, clean-rooted names))

clean_path-rooted :
    (debug : Bool) (wd : Option Bytes) (names : List Bytes)
    → are_names names ≡ true
    → clean_path debug wd (rooted names) ≡ some (rooted names)
clean_path-rooted debug wd names h =
    clean_path-abs debug wd (rooted names) names refl h (clean-rooted names h)

-- `MakeDirectory` of an absolute path returns a directory whose path is a separator and names with a
-- separator between each two, and `Normalize` of that directory returns it unchanged.
pub normalize-make_directory :
    (debug : Bool) (wd : Option Bytes) (s : Bytes)
    → is_abs s ≡ true
    → (d : Directory) × (make_directory debug wd s ≡ some d)
      × (Directory.normalize debug wd d ≡ some d)
      × (names : List Bytes) × (are_names names ≡ true)
      × (d.path ≡ rooted names)
unfolding make_directory Directory.normalize
normalize-make_directory debug wd s h =
    let (names, all, e) = clean-abs s h in
    let again = clean_path-rooted debug wd names all in
    (
      record { path = rooted names },
      rw (clean_path-abs debug wd s names h all e),
      rw again,
      names,
      all,
      refl,
    )

split_file-last :
    (rb r tail : Bytes)
    → is_plain rb ≡ true
    → split_file (rb ++ b'/' ∷ r) tail ≡ (reverse (b'/' ∷ r), reverse rb ++ tail)
unfolding split_file
split_file-last [] r tail h = refl
split_file-last (c ∷ rb) r tail h =
    let ne : is_path_separator c ≡ false = ground arith in
    rw (ne, split_file-last rb r (c ∷ tail) (ground arith))
      (ap (λ t. (reverse (b'/' ∷ r), t))
        (sym (ap (λ t. t ++ tail) (reverse-cons c rb) ∙ append_assoc (reverse rb) (c ∷ []) tail)))

is_plain-append : (s t : Bytes) → is_plain (s ++ t) ≡ (is_plain s && is_plain t)
is_plain-append [] t = refl
is_plain-append (c ∷ s) t = ground (arith, is_plain-append s t)

is_plain-reverse : (s : Bytes) → is_plain (reverse s) ≡ is_plain s
is_plain-reverse [] = refl
is_plain-reverse (c ∷ s) =
    rw (reverse-cons c s, is_plain-append (reverse s) (c ∷ []), is_plain-reverse s) (ground arith)

-- The name after the last separator of a path, and the path before it.
split_clean-last :
    (p b : Bytes)
    → is_plain b ≡ true
    → split_clean (p ++ b'/' ∷ b) ≡ record { dirname = record { path = p }; basename = b }
unfolding split_clean
split_clean-last p b h =
    let turned : reverse (p ++ b'/' ∷ b) ≡ reverse b ++ b'/' ∷ reverse p =
      reverse-append p (b'/' ∷ b)
      ∙ ap (λ t. t ++ reverse p) (reverse-cons b'/' b)
      ∙ append_assoc (reverse b) (b'/' ∷ []) (reverse p) in
    let plain : is_plain (reverse b) ≡ true = is_plain-reverse b ∙ h in
    let found : split_file (reverse (p ++ b'/' ∷ b)) [] ≡ (p ++ b'/' ∷ [], b) = rw (
      turned,
      split_file-last (reverse b) (reverse p) [] plain,
      reverse-cons b'/' (reverse p),
      reverse-reverse p,
      reverse-reverse b,
      append-nil b,
    ) in
    let shorter : length (p ++ b'/' ∷ []) - 1 ≡ length p =
      omega (arith, length-append p (b'/' ∷ [])) in
    rw (found, shorter, take-piece p (b'/' ∷ []))

name_long : (b : Bytes) → is_name b ≡ true → leb 1 (length b) ≡ true
name_long [] h = ground arith
name_long (c ∷ b) h = ground arith

name_relative : (b : Bytes) → is_name b ≡ true → is_abs b ≡ false
name_relative [] h = refl
name_relative (c ∷ b) h = ground arith

make_filename-rooted :
    (debug : Bool) (wd : Option Bytes) (p b : Bytes) (names : List Bytes)
    → are_names names ≡ true
    → is_plain b ≡ true
    → rooted names ≡ p ++ b'/' ∷ b
    → make_filename debug wd (rooted names)
      ≡ some (record { dirname = record { path = p }; basename = b })
unfolding make_filename
make_filename-rooted debug wd p b names all h e =
    rw (clean_path-rooted debug wd names all, e, split_clean-last p b h)

-- A file with a name, in a directory other than the root, whose path is made of names: its text is made
-- of these names and its own, and `MakeFilename` gives the same file for it.
pub make_filename-string :
    (debug : Bool) (wd : Option Bytes) (n : Bytes) (names : List Bytes) (b : Bytes)
    → are_names (n ∷ names) ≡ true
    → is_name b ≡ true
    → (string (record { dirname = record { path = rooted (n ∷ names) }; basename = b })
        ≡ rooted (n ∷ names ++ b ∷ []))
      × (make_filename debug wd
            (string (record { dirname = record { path = rooted (n ∷ names) }; basename = b }))
          ≡ some (record { dirname = record { path = rooted (n ∷ names) }; basename = b }))
unfolding string joined
make_filename-string debug wd n names b h h' =
    let last : rooted (n ∷ names ++ b ∷ []) ≡ rooted (n ∷ names) ++ b'/' ∷ b =
      ap (λ t. b'/' ∷ t) (path_of-last n names b) in
    let long : leb 1 (length (rooted (n ∷ names))) ≡ true = ground arith in
    let text : string (record { dirname = record { path = rooted (n ∷ names) }; basename = b })
        ≡ rooted (n ∷ names ++ b ∷ []) =
      rw (string, name_long b h', long) (sym last) in
    (
      text,
      rw text (
          make_filename-rooted debug wd (rooted (n ∷ names)) b (n ∷ names ++ b ∷ [])
            (ground (arith, are_names-last names b)) (ground arith) last),
    )

-- Of a file in the root directory, `MakeFilename` loses the root: the text of the file is its name
-- alone, which is no absolute path, so that `Normalize` panics in a debug build.
pub root_file_loses_root :
    (debug : Bool) (wd : Option Bytes) (b : Bytes)
    → is_name b ≡ true
    → (f : Filename) × (make_filename debug wd (rooted (b ∷ [])) ≡ some f)
      × (string f ≡ b)
      × (Filename.normalize true wd f ≡ none)
unfolding make_filename string path_of clean_path Filename.normalize
root_file_loses_root debug wd b h = (
  record { dirname = record { path = [] }; basename = b },
  make_filename-rooted debug wd [] b (b ∷ []) (ground arith) (ground arith) refl,
  rw (string, name_long b h),
  rw (Filename.normalize, string, name_long b h, name_relative b h),
)
