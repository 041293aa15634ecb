-- ===== src/Hal/GnuDepFile/RoundTrip.antt =====
-- The names that a compiler writes, and the reader of dependency files on them.
use ppb.Prelude.{
  ℕ, ◌≡◌, refl, sym, ap, ◌∙◌, Bool, true, false, not, ◌&&◌, ◌||◌, eqb, if◌then◌else◌, some, List,
  [], ◌∷◌, ◌++◌, map, Bytes, Comparable, elem, elem-append, ◌==◌, ==_iff, eqb_iff, Bool-cases, inl,
  inr, arith,
}
use mathlib.Core.List.{append_assoc, append-nil}
use ppb.Hal.GnuDepFile.{
  is_space, after_colon, append_file, read_names, names_after, load_names, append_uniq,
  append_files, load,
}

-- No space but the one that is escaped, and no backslash at the end.
abbrev pub is_name_rune : ℕ → Bool
is_name_rune c = eqb c 32 || not (is_space c)

abbrev pub is_clean : Bytes → Bool
is_clean [] = true
is_clean (c ∷ []) = is_name_rune c && not (eqb c 92)
is_clean (c ∷ d ∷ s) = is_name_rune c && is_clean (d ∷ s)

abbrev pub is_name : Bytes → Bool
is_name [] = false
is_name (c ∷ s) = is_clean (c ∷ s)

-- A name as it is written: a backslash before each space.
abbrev pub escape_rune : ℕ → Bytes
escape_rune c = if eqb c 32 then 92 ∷ 32 ∷ [] else c ∷ []

abbrev pub escape : Bytes → Bytes
escape [] = []
escape (c ∷ s) = escape_rune c ++ escape s

-- Each name stands after a space, on a line of its own if so marked. The last line has an end.
abbrev pub print_names : List (Bool × Bytes) → Bytes
print_names [] = 10 ∷ []
print_names ((new_line, name) ∷ names) =
    let rest = escape name ++ print_names names in
    if new_line then 32 ∷ 92 ∷ 10 ∷ 32 ∷ 32 ∷ rest else 32 ∷ rest

abbrev pub print : Bytes → List (Bool × Bytes) → Bytes
print target names = target ++ b':' ∷ print_names names

abbrev pub all_names : List (Bool × Bytes) → Bool
all_names [] = true
all_names ((new_line, name) ∷ names) = is_name name && all_names names

abbrev pub no_colon : Bytes → Bool
no_colon [] = true
no_colon (c ∷ s) = not (eqb c b':') && no_colon s

after_colon-target :
    (target rest : Bytes) → no_colon target ≡ true → after_colon (target ++ b':' ∷ rest) ≡ some rest
unfolding after_colon
after_colon-target [] rest h = refl
after_colon-target (c ∷ target) rest h = ground (arith, h, after_colon-target target rest)

is_space-space : is_space 32 ≡ true
unfolding is_space
is_space-space = refl

is_space-newline : is_space 10 ≡ true
unfolding is_space
is_space-newline = refl

is_space-backslash : is_space 92 ≡ false
unfolding is_space
is_space-backslash = refl

-- One step of the loop, on each kind of rune.
read-escape :
    (buf text : Bytes) → read_names buf (92 ∷ 32 ∷ text) ≡ read_names (buf ++ 32 ∷ []) text
unfolding read_names
read-escape buf text = refl

read-continuation :
    (buf text : Bytes) → read_names buf (92 ∷ 10 ∷ text) ≡ append_file buf (read_names [] text)
unfolding read_names
read-continuation buf text = ground (arith, is_space-newline)

read-backslash :
    (buf : Bytes) (d : ℕ) (text : Bytes)
    → is_space d ≡ false
    → read_names buf (92 ∷ d ∷ text) ≡ read_names (buf ++ 92 ∷ []) (d ∷ text)
unfolding read_names
read-backslash buf d text h = ground (arith, h, is_space-space)

read-space :
    (buf : Bytes) (c : ℕ) (text : Bytes)
    → eqb c 92 ≡ false
    → is_space c ≡ true
    → read_names buf (c ∷ text) ≡ append_file buf (read_names [] text)
unfolding read_names
read-space buf c [] other h = ground (arith, h)
read-space buf c (d ∷ text) other h = ground (arith, h, other)

read-rune :
    (buf : Bytes) (c : ℕ) (text : Bytes)
    → eqb c 92 ≡ false
    → is_space c ≡ false
    → read_names buf (c ∷ text) ≡ read_names (buf ++ c ∷ []) text
unfolding read_names
read-rune buf c [] other h = ground (arith, h)
read-rune buf c (d ∷ text) other h = ground (arith, h, other)

-- The first rune of what is written for a name with at least one rune is no space.
escape-head :
    (d : ℕ) (s rest : Bytes)
    → is_name_rune d ≡ true
    → (h : ℕ) × (t : Bytes) × (escape (d ∷ s) ++ rest ≡ h ∷ t) × (is_space h ≡ false)
escape-head d s rest ok = elim (Bool-cases (eqb d 32)) [
  | inl e ↦ (92, 32 ∷ escape s ++ rest, rw (escape, escape_rune, e) refl, is_space-backslash)
  | inr e ↦ (d, escape s ++ rest, rw (escape, escape_rune, e) refl, ground (arith, ok, e))
]

-- A rune of a name goes into the buffer, if no space follows a backslash.
read-escape_rune :
    (buf : Bytes) (c : ℕ) (text : Bytes)
    → is_name_rune c ≡ true
    → (eqb c 92 ≡ true → (h : ℕ) × (t : Bytes) × (text ≡ h ∷ t) × (is_space h ≡ false))
    → read_names buf (escape_rune c ++ text) ≡ read_names (buf ++ c ∷ []) text
read-escape_rune buf c text ok next = elim (Bool-cases (eqb c 32)) [
  | inl e ↦ let p : c ≡ 32 = (eqb_iff c 32).0 e in rw p (read-escape buf text)
  | inr e ↦
      rw (escape_rune, e)
        (elim (Bool-cases (eqb c 92)) [
          | inl b ↦
              let (h, t, q, no_space) = next b in
              let p : c ≡ 92 = (eqb_iff c 92).0 b in rw (p, q) (read-backslash buf h t no_space)
          | inr b ↦ read-rune buf c text b (ground (arith, ok, e))
        ])
]

head_ok : (d : ℕ) (s : Bytes) → is_clean (d ∷ s) ≡ true → is_name_rune d ≡ true
head_ok d [] h = ground (arith, h)
head_ok d (c ∷ s) h = ground (arith, h)

-- A name goes into the buffer.
read-name :
    (buf s rest : Bytes)
    → is_clean s ≡ true
    → read_names buf (escape s ++ rest) ≡ read_names (buf ++ s) rest
read-name buf [] rest h = ap (λ (b : Bytes). read_names b rest) (sym (append-nil buf))
read-name buf (c ∷ []) rest h =
    ap (read_names buf) (append_assoc (escape_rune c) [] rest)
    ∙ read-escape_rune buf c rest (ground (arith, h)) (λ b. absurd (ground (arith, h, b)))
read-name buf (c ∷ d ∷ s) rest h =
    ap (read_names buf) (append_assoc (escape_rune c) (escape (d ∷ s)) rest)
    ∙ read-escape_rune buf c (escape (d ∷ s) ++ rest) (ground (arith, h))
        (λ b. escape-head d s rest (head_ok d s (ground (arith, h))))
    ∙ read-name (buf ++ c ∷ []) (d ∷ s) rest (ground (arith, h))
    ∙ ap (λ (b : Bytes). read_names b rest) (append_assoc buf (c ∷ []) (d ∷ s))

abbrev pub names_of : List (Bool × Bytes) → List Bytes
names_of [] = []
names_of ((new_line, name) ∷ names) = name ∷ names_of names

append_file-name :
    (name : Bytes) (names : List Bytes)
    → is_name name ≡ true
    → append_file name names ≡ name ∷ names
append_file-name [] names h = absurd (ground (arith, h))
append_file-name (c ∷ name) names h = refl

is_name-is_clean : (name : Bytes) → is_name name ≡ true → is_clean name ≡ true
is_name-is_clean [] h = refl
is_name-is_clean (c ∷ name) h = h

-- Spaces, and a continued line, before a name.
read-skip : (text : Bytes) → read_names [] (32 ∷ text) ≡ read_names [] text
read-skip text = read-space [] 32 text refl is_space-space

read-new_line :
    (buf text : Bytes)
    → read_names buf (32 ∷ 92 ∷ 10 ∷ 32 ∷ 32 ∷ text) ≡ append_file buf (read_names [] text)
read-new_line buf text =
    read-space buf 32 (92 ∷ 10 ∷ 32 ∷ 32 ∷ text) refl is_space-space
    ∙ ap (append_file buf)
        (read-continuation [] (32 ∷ 32 ∷ text) ∙ read-skip (32 ∷ text) ∙ read-skip text)

read-print_names :
    (buf : Bytes) (names : List (Bool × Bytes))
    → all_names names ≡ true
    → read_names buf (print_names names) ≡ append_file buf (names_of names)
read-print_names buf [] h =
    read-space buf 10 [] refl is_space-newline ∙ ap (append_file buf) (unfold read_names in refl)
read-print_names buf ((new_line, name) ∷ names) h =
    let first : is_name name ≡ true = ground (arith, h) in
    let rest =
      read-name [] name (print_names names) (is_name-is_clean name first)
      ∙ read-print_names name names (ground (arith, h))
      ∙ append_file-name name (names_of names) first in
    elim (Bool-cases new_line) [
      | inl e ↦
          rw (print_names, e)
            (read-new_line buf (escape name ++ print_names names) ∙ ap (append_file buf) rest)
      | inr e ↦
          rw (print_names, e)
            (read-space buf 32 (escape name ++ print_names names) refl is_space-space
              ∙ ap (append_file buf) rest)
    ]

module _ {F : Type 0} ⦃e : Comparable F⦄ (to_file : Bytes → F) where
  elem-append_uniq :
      (list : List F) (x f : F) → elem f (append_uniq to_file list x) ≡ (elem f list || (x == f))
  unfolding append_uniq
  elem-append_uniq list x f = ground (arith, elem-append f list (x ∷ []), ==_iff x f)

  elem-append_files :
      (list : List F) (names : List Bytes) (f : F)
      → elem f (append_files to_file list names) ≡ (elem f list || elem f (map to_file names))
  elem-append_files list [] f = ground arith
  elem-append_files list (name ∷ names) f =
      elem-append_files (append_uniq to_file list (to_file name)) names f
      ∙ ground (arith, elem-append_uniq list (to_file name) f)

  -- What a compiler wrote is read back: for a target without colons, and names that have at least one
  -- rune, no space but U+0020, and no backslash at the end, each after a space or on a new line and with
  -- its spaces escaped: exactly these names are read, in their order, and the dependencies hold exactly
  -- their files.
  pub load-print :
      (target : Bytes) (names : List (Bool × Bytes))
      → no_colon target ≡ true
      → all_names names ≡ true
      → (load_names (print target names) ≡ names_of names)
        × ((f : F)
            → elem f (load to_file (print target names)) ≡ elem f (map to_file (names_of names)))
  unfolding load load_names
  load-print target names h k =
      let read : load_names (print target names) ≡ names_of names =
        ap names_after (after_colon-target target (print_names names) h)
        ∙ read-print_names [] names k in
      (read, λ f. rw read (elem-append_files [] (names_of names) f))
