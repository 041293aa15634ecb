-- ===== src/Switch.antt =====
-- How an enumeration takes a text: `strings.ToUpper` and a switch over the texts
-- of the constants.
use Prim.Native.Char.{code}
use Prim.Native.String.{String}
use ppb.Prelude.{
  ℕ, zero, suc, ◌-◌, ◌≡◌, ◌↔◌, ◌&&◌, Option, none, some, List, [], ◌∷◌, Bytes, is_ascii, true, ◌==◌,
  ==_iff, nat_comparable, list_comparable, arith, leb, if◌then◌else◌,
}

-- The bytes of a literal.
abbrev pub codes : String → Bytes
codes String.[] = []
codes (String.◌∷◌ c s) = code c ∷ codes s

-- `strings.ToUpper` of an ASCII text. Of others it may be another text, also an ASCII one.
unfoldable pub to_upper : Bytes → Bytes
to_upper [] = []
to_upper (c ∷ s) = (if leb b'a' c && leb c b'z' then c - 32 else c) ∷ to_upper s

module _ {T : Type 0} (text : T → Bytes) where
  -- The value of the first case whose text is the given one. `none` is the error of the default case.
  unfoldable pub first_case : Bytes → List T → Option T
  first_case s [] = none
  first_case s (x ∷ xs) = if s == text x then some x else first_case s xs

  first_case-text : (s : Bytes) (xs : List T) (x : T) → first_case s xs ≡ some x → s ≡ text x
  unfolding first_case
  first_case-text s [] x h = absurd (ground (arith, h))
  first_case-text s (y ∷ ys) x h = ground (arith, ==_iff s (text y), first_case-text s ys x)

  pub first_case_iff :
      (xs : List T) {x : T}
      → first_case (text x) xs ≡ some x
      → (s : Bytes) → (first_case s xs ≡ some x) ↔ (s ≡ text x)
  first_case_iff xs {x} found s = (first_case-text s xs x, λ e. rw e found)

-- The constant of a number: `iota` counts the constants from 0.
unfoldable pub nth_constant : {T : Type 0} → List T → ℕ → Option T
nth_constant [] n = none
nth_constant (x ∷ xs) zero = some x
nth_constant (x ∷ xs) (suc n) = nth_constant xs n

-- The texts of an enumeration are read: `Set` takes the text of a value for it, and of the ASCII
-- inputs exactly those that are this text once their letters are folded.
pub record IsRead {T : Type 0} (fold : Bytes → Bytes) (string : T → Bytes) (set : Bytes → Option T)
    : Type 0 where
  pub set-string : (x : T) → set (string x) ≡ some x
  pub set_iff :
      (in_ : Bytes) (x : T) → is_ascii in_ ≡ true → (set in_ ≡ some x) ↔ (fold in_ ≡ string x)
