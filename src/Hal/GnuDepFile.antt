-- ===== src/Hal/GnuDepFile.antt =====
-- `GnuDepFile` of internal/hal/generic/GnuDepFile.go: the dependencies that a compiler writes for
-- make. The text of the file is given by its runes.
pub mod RoundTrip
mod Runs
use ppb.Prelude.{
  ℕ, ◌≡◌, Bool, true, false, ◌&&◌, ◌||◌, leb, eqb, Option, none, some, List, [], ◌∷◌, ◌++◌, Bytes,
  Comparable, elem, if◌then◌else◌,
}

-- `unicode.IsSpace`
unfoldable pub is_space : ℕ → Bool
is_space c =
    leb 9 c && leb c 13
    || (eqb c 32
        || (eqb c 133
            || (eqb c 160
                || (eqb c 5760
                    || (leb 8192 c && leb c 8202
                        || (eqb c 8232
                            || (eqb c 8233 || (eqb c 8239 || (eqb c 8287 || eqb c 12288)))))))))

-- What follows the first colon. `none` is the end of the file.
unfoldable pub after_colon : Bytes → Option Bytes
after_colon [] = none
after_colon (c ∷ text) = elim (eqb c b':') [ true ↦ some text | false ↦ after_colon text ]

-- `appendFile`, by the names that follow.
abbrev pub append_file : Bytes → List Bytes → List Bytes
append_file [] names = names
append_file (c ∷ buf) names = (c ∷ buf) ∷ names

-- The inner loop, with the buffer. It ends with the file.
unfoldable pub read_names : Bytes → Bytes → List Bytes
read_names buf [] = append_file buf []
read_names buf (ch ∷ []) = elim (is_space ch) [
  | true ↦ append_file buf []
  | false ↦ append_file (buf ++ ch ∷ []) []
]
read_names buf (ch ∷ ch2 ∷ text) = elim (eqb ch b'\\') [
  | true ↦ elim (eqb ch2 b' ') [
    | true ↦ read_names (buf ++ ch2 ∷ []) text
    | false ↦ elim (is_space ch2) [
      | true ↦ append_file buf (read_names [] text)
      | false ↦ read_names (buf ++ ch ∷ []) (ch2 ∷ text)
    ]
  ]
  | false ↦ elim (is_space ch) [
    | true ↦ append_file buf (read_names [] (ch2 ∷ text))
    | false ↦ read_names (buf ++ ch ∷ []) (ch2 ∷ text)
  ]
]

abbrev pub names_after : Option Bytes → List Bytes
names_after none = []
names_after (some text) = read_names [] text

-- The names of the file. The first round of the outer loop reads to the end of the file.
unfoldable pub load_names : Bytes → List Bytes
unfolding after_colon read_names
load_names text = names_after (after_colon text)

-- `Dependencies`, after the names are appended as files. `to_file` is the file of a name, which depends
-- on the root directory if the name is local.
module _ {F : Type 0} ⦃e : Comparable F⦄ (to_file : Bytes → F) where
  -- `AppendUniq` of `FileSet`, with one file
  unfoldable pub append_uniq : List F → F → List F
  append_uniq list x = if elem x list then list else list ++ x ∷ []

  abbrev pub append_files : List F → List Bytes → List F
  append_files dependencies [] = dependencies
  append_files dependencies (name ∷ names) =
      append_files (append_uniq dependencies (to_file name)) names

  unfoldable pub load : Bytes → List F
  unfolding load_names append_uniq
  load text = append_files [] (load_names text)
