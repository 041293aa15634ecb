-- ===== src/BuildGraph/Chain/Start.antt =====
-- The search as it starts.
use ppb.Prelude.{
  ℕ, zero, suc, ◌+◌, ◌≡◌, ◌⊎◌, inl, inr, refl, ◌∙◌, true, none, some, List, [], ◌∷◌, arith,
  if◌then◌else◌, length, get_elem?, ◌==◌, ==_iff, Option-cases, Bool-cases,
}
use mathlib.Core.Path.{subst}
use ppb.BuildNode.Dependencies.{BuildAlias, alias_comparable}
use ppb.BuildExecution.Environment.{Outcome}
use ppb.BuildGraph.Chain.{max_float, Links, entries, start}
use ppb.BuildGraph.Chain.Left.{waits, At, Indexed}
use ppb.BuildGraph.Chain.Invariant.{Reached, IsSearch}

entries-Indexed :
    (vertices : List BuildAlias) (k : ℕ) (rest : List BuildAlias)
    → ((i : ℕ) (a : BuildAlias) → get_elem? rest i ≡ some a → At vertices (k + i) a)
    → Indexed vertices (entries k rest)
unfolding entries
entries-Indexed vertices k [] tail = tt
entries-Indexed vertices k (a ∷ rest) tail = (
  subst (λ i. At vertices i a) (omega arith) (tail 0 a refl),
  entries-Indexed vertices (suc k) rest
      (λ i b h. subst (λ i. At vertices i b) (omega arith) (tail (suc i) b h)),
)

waits-entries :
    (i j k : ℕ) (rest : List BuildAlias) (a : BuildAlias)
    → i ≡ k + j
    → get_elem? rest j ≡ some a
    → waits i (entries k rest) ≡ true
unfolding entries
waits-entries i j k [] a e h = cc
waits-entries i zero k (b ∷ rest) a e h = ground (arith, e)
waits-entries i (suc j) k (b ∷ rest) a e h =
    ground (arith, waits-entries i j (suc k) rest a (omega (arith, e)) h)

length-entries : (k : ℕ) (rest : List BuildAlias) → length (entries k rest) ≡ length rest
unfolding entries
length-entries k [] = refl
length-entries k (a ∷ rest) = omega (arith, length-entries (suc k) rest)

module _ (vertices : List BuildAlias) (src dst : BuildAlias)
    (links : BuildAlias → Outcome Links) where
  pub waits-start :
      (j : ℕ) (a : BuildAlias) → At vertices j a → waits j (start vertices src dst).visiteds ≡ true
  unfolding start
  waits-start j a h = waits-entries j j 0 vertices a (omega arith) h

  pub length-start : length (start vertices src dst).visiteds ≡ length vertices
  unfolding start
  length-start = length-entries 0 vertices

  distance-At :
      (j : ℕ) (a : BuildAlias)
      → At vertices j a
      → (start vertices src dst).distance j ≡ (if a == src then 0 else max_float)
  unfolding start
  distance-At j a h = rw (h, start) refl

  distance-out :
      (j : ℕ) → get_elem? vertices j ≡ none → (start vertices src dst).distance j ≡ max_float
  unfolding start
  distance-out j h = rw (h, start) refl

  sound-start :
      (j : ℕ)
      → ((start vertices src dst).distance j ≡ max_float)
        ⊎ Reached vertices src links (start vertices src dst) j
  sound-start j = elim (Option-cases (get_elem? vertices j)) [
    | inl out ↦ inl (distance-out j out)
    | inr (a, at_j) ↦ elim (Bool-cases (a == src)) [
      | inl is ↦
          let zero_there : (start vertices src dst).distance j ≡ 0 =
            distance-At j a at_j ∙ rw is refl in
          inr (record {
            bound = omega (arith, zero_there, length-start);
            how = inl (subst (At vertices j) ((==_iff a src).0 is) at_j, zero_there);
          })
      | inr other ↦ inl (distance-At j a at_j ∙ rw other refl)
    ]
  ]

  pub start-IsSearch : IsSearch vertices src links (start vertices src dst)
  unfolding start
  start-IsSearch = record {
    indexed =
        entries-Indexed vertices 0 vertices (λ i a h. subst (λ k. At vertices k a) (omega arith) h);
    source = λ i at_i. distance-At i src at_i ∙ ground (arith, ==_iff src src);
    sound = sound-start;
    closed = λ i j gone edge. absurd (cc (gone, waits-start i edge.source edge.at_source));
    below = λ i j a at_i gone w. absurd (cc (gone, waits-start i a at_i));
    settled = λ i a at_i gone e. cc (gone, waits-start i a at_i);
  }
