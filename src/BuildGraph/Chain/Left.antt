-- ===== src/BuildGraph/Chain/Left.antt =====
-- The map of the vertices that are left: its indices, lookups and deletions.
use ppb.Prelude.{
  ℕ, ◌≤◌, ◌<◌, ◌≡◌, inl, inr, refl, Bool, true, false, ◌&&◌, ◌||◌, not, some, List, [], ◌∷◌, arith,
  eqb, eqb_iff, length, get_elem?, ◌==◌, ==_iff, Bool-cases,
}
use mathlib.Core.List.{Memᴰ}
use mathlib.Core.List.Memᴰ
use ppb.BuildNode.Dependencies.{BuildAlias, alias_comparable}
use ppb.BuildGraph.Chain.{Visiteds, find, delete}

-- Whether the vertex of the index `j` is left.
abbrev pub waits : ℕ → Visiteds → Bool
waits j [] = false
waits j ((a, i) ∷ rest) = eqb i j || waits j rest

pub mem_of_waits : (j : ℕ) (m : Visiteds) → waits j m ≡ true → (a : BuildAlias) × Memᴰ (a, j) m
mem_of_waits j [] h = cc
mem_of_waits j ((a, i) ∷ rest) h = elim (Bool-cases (eqb i j)) [
  | inl e ↦ (a, Memᴰ.head (cc ((eqb_iff i j).0 e)))
  | inr ne ↦ let (b, m) = mem_of_waits j rest (ground (arith, ne, h)) in (b, Memᴰ.tail m)
]

pub waits_of_mem : (j : ℕ) (a : BuildAlias) (m : Visiteds) → Memᴰ (a, j) m → waits j m ≡ true
waits_of_mem j b [] m = absurd (Memᴰ.not-nil m)
waits_of_mem j b ((a, i) ∷ rest) m = elim (Memᴰ.cases_cons m) [
  | inl e ↦ ground (arith, e)
  | inr r ↦ ground (arith, waits_of_mem j b rest r)
]

pub find-waits : (v : BuildAlias) (m : Visiteds) {j : ℕ} → find v m ≡ some j → waits j m ≡ true
find-waits v [] h = cc
find-waits v ((a, i) ∷ rest) {j = j} h = ground (arith, find-waits v rest {j = j})

length-delete-le : (u : BuildAlias) (m : Visiteds) → length (delete u m) ≤ length m
length-delete-le u [] = omega arith
length-delete-le u ((a, i) ∷ rest) = ground (arith, length-delete-le u rest)

module _ (vertices : List BuildAlias) where
  abbrev pub At : ℕ → BuildAlias → Type 0
  At i a = get_elem? vertices i ≡ some a

  -- Each entry has the index of its vertex.
  abbrev pub Indexed : Visiteds → Type 0
  Indexed [] = Unit {0}
  Indexed ((a, i) ∷ rest) = At i a × Indexed rest

  pub find-At : (v : BuildAlias) (m : Visiteds) {j : ℕ} → Indexed m → find v m ≡ some j → At j v
  find-At v [] x h = cc
  find-At v ((a, i) ∷ rest) {j} x h = ground (arith, ==_iff a v, find-At v rest {j = j} x.1)

  pub delete-Indexed : (u : BuildAlias) (m : Visiteds) → Indexed m → Indexed (delete u m)
  delete-Indexed u [] x = tt
  delete-Indexed u ((a, i) ∷ rest) x = elim (Bool-cases (a == u)) [
    | inl e ↦ rw e (delete-Indexed u rest x.1)
    | inr ne ↦ rw ne (x.0, delete-Indexed u rest x.1)
  ]

  module _ (distinct : (i j : ℕ) (a : BuildAlias) → At i a → At j a → i ≡ j) where
    pub waits-find :
        (v : BuildAlias) (m : Visiteds) (j : ℕ)
        → Indexed m
        → At j v
        → waits j m ≡ true
        → find v m ≡ some j
    waits-find v [] j x at_j h = cc
    waits-find v ((a, i) ∷ rest) j x at_j h =
        ground (arith, ==_iff a v, distinct i j v, waits-find v rest j x.1 at_j)

    pub waits-delete :
        (u : BuildAlias) (k : ℕ) (m : Visiteds) (j : ℕ)
        → Indexed m
        → At k u
        → waits j (delete u m) ≡ (waits j m && not (eqb j k))
    waits-delete u k [] j x at_k = refl
    waits-delete u k ((a, i) ∷ rest) j x at_k =
        ground (arith, ==_iff a u, distinct i k u, waits-delete u k rest j x.1 at_k)

    pub length-delete :
        (u : BuildAlias) (k : ℕ) (m : Visiteds)
        → Indexed m
        → At k u
        → waits k m ≡ true
        → length (delete u m) < length m
    length-delete u k [] x at_k h = cc
    length-delete u k ((a, i) ∷ rest) x at_k h =
        ground (arith, ==_iff a u, length-delete-le u rest, length-delete u k rest x.1 at_k)
