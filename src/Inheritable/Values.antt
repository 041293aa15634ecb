-- ===== src/Inheritable/Values.antt =====
-- `InheritableBool` and `InheritableSlice` of internal/base/Inheritable.go.
use ppb.Prelude.{
  Bytes, ℕ, ◌≡◌, ◌↔◌, Bool, true, false, ◌&&◌, not, List, [], ◌∷◌, arith, if◌then◌else◌, eqb,
  length, Comparable, ◌==◌, ==_iff, ◌||◌, list_comparable, nat_comparable,
}

-- `INHERITABLE_INHERIT`, `INHERITABLE_FALSE`, `INHERITABLE_TRUE`: a byte, which `Set` can make any other
-- number too.
abbrev pub inheritable_inherit : ℕ
inheritable_inherit = 0

abbrev pub inheritable_false : ℕ
inheritable_false = 1

abbrev pub inheritable_true : ℕ
inheritable_true = 2

-- `Get` and `IsEnabled`
unfoldable pub get_bool : ℕ → Bool
get_bool x = eqb x inheritable_true

unfoldable pub bool_is_inheritable : ℕ → Bool
bool_is_inheritable x = eqb x inheritable_inherit

-- `MakeBoolVar`: `Enable` or `Disable`
unfoldable pub make_bool_var : Bool → ℕ
make_bool_var enabled = if enabled then inheritable_true else inheritable_false

-- `Assign`
unfoldable pub assign : Bool → ℕ
assign enabled = if enabled then inheritable_true else inheritable_false

-- `Toggle`
unfoldable pub toggle : ℕ → ℕ
unfolding get_bool
toggle x = if get_bool x then inheritable_false else inheritable_true

-- `String`: "TRUE", "FALSE" or "INHERIT"
unfoldable pub bool_string : ℕ → Bytes
unfolding get_bool bool_is_inheritable
bool_string x =
    if get_bool x
    then 84 ∷ 82 ∷ 85 ∷ 69 ∷ []
    else if not (bool_is_inheritable x)
    then 70 ∷ 65 ∷ 76 ∷ 83 ∷ 69 ∷ []
    else 73 ∷ 78 ∷ 72 ∷ 69 ∷ 82 ∷ 73 ∷ 84 ∷ []

-- `InheritableString.IsInheritable`: "INHERIT", or the empty string.
unfoldable pub string_is_inheritable : Bytes → Bool
string_is_inheritable x = x == 73 ∷ 78 ∷ 72 ∷ 69 ∷ 82 ∷ 73 ∷ 84 ∷ [] || x == []

module _ {A : Type 0} (is_inheritable : A → Bool) where
  -- `InheritableSlice.IsInheritable`
  unfoldable pub slice_is_inheritable : List A → Bool
  slice_is_inheritable [] = true
  slice_is_inheritable (v ∷ x) = is_inheritable v && slice_is_inheritable x

module _ {A : Type 0} ⦃e : Comparable A⦄ where
  -- The loop of `InheritableSlice.Equals`, over slices of one length.
  unfoldable pub all_equal : List A → List A → Bool
  all_equal [] y = true
  all_equal (a ∷ x) [] = false
  all_equal (a ∷ x) (b ∷ y) = a == b && all_equal x y

  unfoldable pub slice_equals : List A → List A → Bool
  unfolding all_equal
  slice_equals x y = eqb (length x) (length y) && all_equal x y

  -- `Equals` of slices whose values have an equality is the equality of the slices.
  pub slice_equals_iff : (x y : List A) → (slice_equals x y ≡ true) ↔ (x ≡ y)
  unfolding slice_equals all_equal
  slice_equals_iff [] [] = ground arith
  slice_equals_iff [] (b ∷ y) = ground arith
  slice_equals_iff (a ∷ x) [] = ground arith
  slice_equals_iff (a ∷ x) (b ∷ y) = ground (arith, ==_iff a b, slice_equals_iff x y)

-- What is assigned is read back and is not inherited; toggling any value turns what is read around,
-- and twice gives the variable that is made of the first reading.
pub toggle-assign :
    (enabled : Bool) (x : ℕ)
    → (get_bool (assign enabled) ≡ enabled)
      × (bool_is_inheritable (assign enabled) ≡ false)
      × (get_bool (toggle x) ≡ not (get_bool x))
      × (toggle (toggle x) ≡ make_bool_var (get_bool x))
unfolding get_bool bool_is_inheritable assign toggle make_bool_var
toggle-assign enabled x = (ground arith, ground arith, ground arith, ground arith)

-- The text of a value is inherited as a string exactly when the value is inherited.
pub string-bool_string : (x : ℕ) → string_is_inheritable (bool_string x) ≡ bool_is_inheritable x
unfolding string_is_inheritable bool_string get_bool bool_is_inheritable
string-bool_string x = ground arith

-- Two values have the same text exactly when they read the same and are inherited alike.
pub bool_string_iff :
    (x y : ℕ)
    → (bool_string x ≡ bool_string y)
      ↔ ((get_bool x ≡ get_bool y) × (bool_is_inheritable x ≡ bool_is_inheritable y))
unfolding bool_string get_bool bool_is_inheritable
bool_string_iff x y = ground arith
