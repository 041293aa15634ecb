-- ===== src/BuildGraph/Chain/Closest.antt =====
-- The vertex of the least distance, whatever the order of the map.
use ppb.Prelude.{
  ℕ, ◌≤◌, ◌≡◌, ◌↔◌, ◌⊎◌, inl, refl, true, none, some, [], ◌∷◌, arith, if◌then◌else◌, ltb,
}
use mathlib.Core.List.{Memᴰ}
use ppb.BuildNode.Dependencies.{BuildAlias}
use ppb.BuildGraph.Chain.{Visiteds, closest}
use ppb.BuildGraph.Chain.Left.{waits, waits_of_mem, mem_of_waits}

-- `r` is one of the indices that wait, and none of these has a smaller distance.
pub record IsClosest (distance : ℕ → ℕ) (m : Visiteds) (r : ℕ) : Type 0 where
  pub left : waits r m ≡ true
  pub least : (j : ℕ) → waits j m ≡ true → distance r ≤ distance j

module _ (distance : ℕ → ℕ) where
  from_some :
      (x : ℕ) (m : Visiteds)
      → (r : ℕ) × (closest distance (some x) m ≡ some r)
        × ((r ≡ x) ⊎ (waits r m ≡ true))
        × (distance r ≤ distance x)
        × ((j : ℕ) → waits j m ≡ true → distance r ≤ distance j)
  unfolding closest
  from_some x [] = (x, refl, inl refl, omega arith, λ j h. cc)
  from_some x ((a, i) ∷ rest) =
      let next = if ltb (distance i) (distance x) then i else x in
      let (r, found, is, le, least) = from_some next rest in
      (r, found, ground (arith, is), ground (arith, le), λ j h. ground (arith, le, least j, h))

  pub closest-IsClosest :
      (m : Visiteds) (j : ℕ)
      → waits j m ≡ true
      → (r : ℕ) × (closest distance none m ≡ some r) × IsClosest distance m r
  unfolding closest
  closest-IsClosest [] j h = cc
  closest-IsClosest ((a, i) ∷ rest) j h =
      let (r, found, is, le, least) = from_some i rest in
      (
        r,
        found,
        record { left = ground (arith, is); least = λ k w. ground (arith, le, least k, w) },
      )

-- The order in which a map is gone through: it has the entries of the map.
abbrev pub KeepsEntries : (Visiteds → Visiteds) → Type 0
KeepsEntries order = (m : Visiteds) (x : BuildAlias × ℕ) → Memᴰ x (order m) ↔ Memᴰ x m

waits-order :
    (order : Visiteds → Visiteds)
    → KeepsEntries order
    → (j : ℕ) (m : Visiteds) → (waits j (order m) ≡ true) ↔ (waits j m ≡ true)
waits-order order keeps j m = (
  λ h. let (a, x) = mem_of_waits j (order m) h in waits_of_mem j a m ((keeps m (a, j)).0 x),
  λ h. let (a, x) = mem_of_waits j m h in waits_of_mem j a (order m) ((keeps m (a, j)).1 x),
)

pub closest-order :
    (order : Visiteds → Visiteds)
    → KeepsEntries order
    → (distance : ℕ → ℕ) (m : Visiteds) (j : ℕ) → waits j m ≡ true
    → (r : ℕ) × (closest distance none (order m) ≡ some r) × IsClosest distance m r
closest-order order keeps distance m j h =
    let same = waits-order order keeps in
    let (r, found, is) = closest-IsClosest distance (order m) j ((same j m).1 h) in
    (r, found, record { left = (same r m).0 is.left; least = λ k w. is.least k ((same k m).1 w) })
