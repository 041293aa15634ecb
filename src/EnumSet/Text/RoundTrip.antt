-- ===== src/EnumSet/Text/RoundTrip.antt =====
-- `Set` of an `EnumSet` on the texts that `String` makes.
use ppb.Prelude.{
  Bytes, ℕ, zero, suc, ◌<◌, ◌≡◌, ◌≢◌, refl, sym, ap, ◌∙◌, Bool, true, false, true≢false, not, ◌&&◌,
  ◌||◌, ltb, some, List, [], ◌∷◌, ◌++◌, map, foldl, arith, if◌then◌else◌, eqb, eqb_iff, Bool-cases,
  inl, inr,
}
use Prim.Native.Nat.{max}
use mathlib.Core.List.{reverse, reverse-reverse, reverse-cons}
use ppb.Words.{or32, or32_lt, shift_one, digit, digit_lt_two, digit-or32, digit-zero, word_ext}
use ppb.EnumSet.{EnumValue, range, new_enum_set, append, add}
use ppb.EnumSet.Bits.{elem_ord, digit-new}
use ppb.EnumSet.Slice.{members, range-members}
use ppb.EnumSet.Text.{split, is_space, trim_left, trim_space, join, texts, string, set_each, set}

-- No byte is a bar or a space.
abbrev pub plain : Bytes → Bool
plain [] = true
plain (c ∷ s) = not (eqb c 124 || is_space c) && plain s

-- What the round trip asks of the values.
pub record IsParsed {T : Type 0} (value : EnumValue T) : Type 0 where
  pub small : (t : T) → value.ord t < 32
  pub from_ord-ord : (t : T) → value.from_ord (value.ord t) ≡ some t
  pub set-text : (t : T) → value.set (value.text t) ≡ some t
  pub text_plain : (t : T) → plain (value.text t) ≡ true

trim_left-plain : (s : Bytes) → plain s ≡ true → trim_left s ≡ s
unfolding trim_left
trim_left-plain [] h = refl
trim_left-plain (c ∷ s) h = ground arith

plain-append : (s t : Bytes) → plain (s ++ t) ≡ (plain s && plain t)
plain-append [] t = refl
plain-append (c ∷ s) t = ground (arith, plain-append s t)

plain-reverse : (s : Bytes) → plain (reverse s) ≡ plain s
plain-reverse [] = refl
plain-reverse (c ∷ s) =
    ground (arith, reverse-cons c s, plain-append (reverse s) (c ∷ []), plain-reverse s)

trim_space-plain : (s : Bytes) → plain s ≡ true → trim_space s ≡ s
unfolding trim_space
trim_space-plain s h =
    rw (trim_left-plain s h, trim_left-plain (reverse s) (plain-reverse s ∙ h)) (reverse-reverse s)

split-plain : (s : Bytes) → plain s ≡ true → split s ≡ s ∷ []
unfolding split
split-plain [] h = refl
split-plain (c ∷ s) h = ground (arith, split-plain s)

split_bar : (s rest : Bytes) → plain s ≡ true → split (s ++ 124 ∷ rest) ≡ s ∷ split rest
unfolding split
split_bar [] rest h = refl
split_bar (c ∷ s) rest h = ground (arith, split_bar s rest)

max_if :
    (a : ℕ) (b : Bool)
    → a < 2
    → max a (if b || false then 1 else 0) ≡ (if eqb a 1 || b then 1 else 0)
max_if a true h = ground arith
max_if a false h = ground arith

module _ {T : Type 0} (value : EnumValue T) (laws : IsParsed value) where
  split-join :
      (t : T) (ts : List T) → split (join (map value.text (t ∷ ts))) ≡ map value.text (t ∷ ts)
  unfolding join
  split-join t [] = split-plain (value.text t) (laws.text_plain t)
  split-join t (u ∷ ts) =
      split_bar (value.text t) (join (map value.text (u ∷ ts))) (laws.text_plain t)
      ∙ ap (λ pieces. value.text t ∷ pieces) (split-join u ts)

  -- One value after another is added.
  abbrev add_each : ℕ → List T → ℕ
  add_each x [] = x
  add_each x (t ∷ ts) = add_each (add value x (t ∷ [])) ts

  set_each-texts :
      (x : ℕ) (ts : List T) → set_each value x (map value.text ts) ≡ some (add_each x ts)
  unfolding set_each
  set_each-texts x [] = refl
  set_each-texts x (t ∷ ts) =
      rw (trim_space-plain (value.text t) (laws.text_plain t), laws.set-text t)
        (set_each-texts (add value x (t ∷ [])) ts)

  digit-add :
      (x : ℕ) (t : T) (i : ℕ)
      → i < 32
      → digit (add value x (t ∷ [])) i ≡ (if eqb (digit x i) 1 || eqb (value.ord t) i then 1 else 0)
  unfolding add append
  digit-add x t i h =
      rw (digit-or32 x (new_enum_set value (t ∷ [])) i h, digit-new value laws.small (t ∷ []) i h)
        (max_if (digit x i) (eqb (value.ord t) i) (digit_lt_two x i))

  digit-add_each :
      (x : ℕ) (ts : List T) (i : ℕ)
      → i < 32
      → digit (add_each x ts) i ≡ (if eqb (digit x i) 1 || elem_ord value i ts then 1 else 0)
  digit-add_each x [] i h = ground (arith, digit_lt_two x i)
  digit-add_each x (t ∷ ts) i h =
      ground
        (arith, digit-add_each (add value x (t ∷ [])) ts i, digit-add x t i h, digit_lt_two x i)

  elem_ord_find :
      (i : ℕ) (list : List T) → elem_ord value i list ≡ true → (t : T) × (value.ord t ≡ i)
  elem_ord_find i [] h = absurd (ground arith)
  elem_ord_find i (t ∷ list) h = elim (Bool-cases (eqb (value.ord t) i)) [
    | inl e ↦ (t, (eqb_iff (value.ord t) i).0 e)
    | inr e ↦ elem_ord_find i list (ground arith)
  ]

  -- The values of the members of a set that a list makes.
  texts-members :
      (list : List T) (n : ℕ)
      → n < 33
      → (ts : List T) × (texts value (members n (new_enum_set value list))
          ≡ some (map value.text ts))
        × ((i : ℕ) → elem_ord value i ts ≡ (ltb i n && elem_ord value i list))
  unfolding texts
  texts-members list zero h = ([], refl, λ i. ground arith)
  texts-members list (suc n) h =
      let (ts, e, same) = texts-members list n (omega arith) in
      elim (Bool-cases (elem_ord value n list)) [
        | inl on ↦
            let (t, o) = elem_ord_find n list on in
            let parsed : value.from_ord n ≡ some t = ground (arith, o, laws.from_ord-ord t) in
            (
              t ∷ ts,
              ground (arith, digit-new value laws.small list n, parsed, e),
              λ i. ground (arith, same i, o),
            )
        | inr off ↦
            (ts, ground (arith, digit-new value laws.small list n, e), λ i. ground (arith, same i))
      ]

  fold_lt :
      (r : ℕ) (list : List T)
      → r < 4294967296
      → foldl (λ result it. or32 result (shift_one (value.ord it))) r list < 4294967296
  fold_lt r [] h = h
  fold_lt r (t ∷ list) h =
      fold_lt (or32 r (shift_one (value.ord t))) list (or32_lt r (shift_one (value.ord t)))

  new_lt : (list : List T) → new_enum_set value list < 4294967296
  unfolding new_enum_set
  new_lt list = fold_lt 0 list (omega arith)

  add_each_lt : (x : ℕ) (ts : List T) → x < 4294967296 → add_each x ts < 4294967296
  add_each_lt x [] h = h
  add_each_lt x (t ∷ ts) h =
      add_each_lt (add value x (t ∷ [])) ts
        (unfold add append in or32_lt x (new_enum_set value (t ∷ [])))

  add_each-new :
      (ts list : List T)
      → ((i : ℕ) → elem_ord value i ts ≡ (ltb i 32 && elem_ord value i list))
      → add_each 0 ts ≡ new_enum_set value list
  add_each-new ts list same =
      word_ext 32 (add_each 0 ts) (new_enum_set value list) (add_each_lt 0 ts (omega arith))
        (new_lt list)
        (λ i l. ground (
          arith,
          digit-add_each 0 ts i l,
          digit-zero i,
          digit-new value laws.small list i l,
          same i,
        ))

  string-texts :
      (x : ℕ) (bits : List ℕ) (ts : List T)
      → range 32 x ≡ some bits
      → texts value bits ≡ some (map value.text ts)
      → string value x ≡ some (join (map value.text ts))
  unfolding string
  string-texts x bits ts r e = ground (arith, r, e)

  set-join :
      (t : T) (ts : List T)
      → set value (join (map value.text (t ∷ ts))) ≡ some (add_each 0 (t ∷ ts))
  unfolding set
  set-join t ts = rw (split-join t ts) (set_each-texts 0 (t ∷ ts))

  -- The text of a list of values that is not empty.
  set-text_of :
      (x : ℕ) (ts : List T)
      → ts ≢ []
      → string value x ≡ some (join (map value.text ts))
      → add_each 0 ts ≡ x
      → (t : Bytes) × (string value x ≡ some t) × (set value t ≡ some x)
  set-text_of x [] some_one e same = absurd (some_one refl)
  set-text_of x (t ∷ ts) some_one e same =
      (join (map value.text (t ∷ ts)), e, set-join t ts ∙ ap some same)

  elem_ord_first :
      (first : T) (list : List T) → elem_ord value (value.ord first) (first ∷ list) ≡ true
  elem_ord_first first list = ground arith

  -- A set of at least one value has a text, and `Set` gives the same set for that text: if the values
  -- have numbers below 32, from which they can be found, and texts without bars and spaces, which
  -- `Set` of a value takes for that value.
  pub set-string :
      (first : T) (list : List T)
      → (t : Bytes) × (string value (new_enum_set value (first ∷ list)) ≡ some t)
        × (set value t ≡ some (new_enum_set value (first ∷ list)))
  set-string first list =
      let all = first ∷ list in
      let (ts, e, same) = texts-members all 32 (omega arith) in
      let one : elem_ord value (value.ord first) ts ≡ true =
        ground (arith, same (value.ord first), elem_ord_first first list, laws.small first) in
      set-text_of (new_enum_set value all) ts
        (λ none_of. true≢false (sym one ∙ ap (elem_ord value (value.ord first)) none_of))
        (string-texts (new_enum_set value all) (members 32 (new_enum_set value all)) ts
          (range-members 32 32 (new_enum_set value all) (omega arith) (omega arith) (new_lt all)) e)
        (add_each-new ts all same)
