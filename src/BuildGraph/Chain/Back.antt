-- ===== src/BuildGraph/Chain/Back.antt =====
-- The loop that goes back from `dst` to `src`.
use ppb.Prelude.{
  ℕ, zero, suc, ◌+◌, ◌^◌, ◌≤◌, ◌<◌, ◌≡◌, ◌≢◌, ◌⊎◌, inl, inr, refl, sym, ap, ◌∙◌, false, some, List,
  [], ◌∷◌, ◌++◌, arith, eqb, eqb_iff, length, get_elem?, ◌==◌, ==_iff, Bool-cases, Option-cases,
}
use mathlib.Core.Path.{subst}
use mathlib.Core.List.{append_assoc, append-nil}
use ppb.BuildNode.Dependencies.{BuildAlias, alias_comparable}
use ppb.BuildExecution.Environment.{Outcome}
use ppb.BuildNode.Links.{BuildDependencyLink}
use ppb.BuildGraph.Chain.{max_float, Links, Search, chain, index_from, is_index, walk}
use ppb.BuildGraph.Chain.Left.{At}
use ppb.BuildGraph.Chain.Answers.{Follows}
use ppb.BuildGraph.Chain.Invariant.{Reached, max_float-large}

index_from-At :
    (i : ℕ) (a : BuildAlias) (rest : List BuildAlias) (k : ℕ)
    → index_from i a rest ≡ some k
    → (m : ℕ) × (k ≡ i + m) × (get_elem? rest m ≡ some a)
unfolding index_from
index_from-At i a [] k h = cc
index_from-At i a (b ∷ rest) k h = elim (Option-cases (index_from (suc i) a rest)) [
  | inr (j, later) ↦
      let (m, e, at_m) = index_from-At (suc i) a rest j later in
      (suc m, ground (arith, h, later, e), at_m)
  | inl missing ↦ (0, ground (arith, h, missing), ground (arith, h, missing, ==_iff b a))
]

index_from-some :
    (i : ℕ) (a : BuildAlias) (rest : List BuildAlias) (m : ℕ)
    → get_elem? rest m ≡ some a
    → (k : ℕ) × (index_from i a rest ≡ some k)
unfolding index_from
index_from-some i a [] m h = cc
index_from-some i a (b ∷ rest) zero h = elim (Option-cases (index_from (suc i) a rest)) [
  | inr (j, later) ↦ (j, rw (later, index_from) refl)
  | inl missing ↦ (i, ground (arith, missing, h, ==_iff b a))
]
index_from-some i a (b ∷ rest) (suc m) h =
    let (k, later) = index_from-some (suc i) a rest m h in (k, rw (later, index_from) refl)

module _ (vertices : List BuildAlias) (src dst : BuildAlias) (links : BuildAlias → Outcome Links)
    (distinct : (i j : ℕ) (a : BuildAlias) → At vertices i a → At vertices j a → i ≡ j)
    (few : length vertices ≤ 2 ^ 24) where
  pub index-At : (i : ℕ) (a : BuildAlias) → At vertices i a → index_from 0 a vertices ≡ some i
  index-At i a at_i =
      let (k, found) = index_from-some 0 a vertices i at_i in
      let (m, e, at_m) = index_from-At 0 a vertices k found in
      let same : m ≡ i = distinct m i a at_m at_i in found ∙ ap some (omega (arith, same, e))

  module _ (t : Search)
      (sound : (j : ℕ) → (t.distance j ≡ max_float) ⊎ Reached vertices src links t j)
      (source : (i : ℕ) → At vertices i src → t.distance i ≡ 0) where
    -- A step of the loop that goes back.
    walk-stop :
        (fuel j : ℕ) (acc : Links)
        → At vertices j src
        → walk vertices src dst (suc fuel) t j acc ≡ chain acc
    unfolding walk
    walk-stop fuel j acc at_src = rw (index-At j src at_src, walk) (ground arith)

    walk-back :
        (fuel j p : ℕ) (a : BuildAlias) (acc : Links)
        → is_index (index_from 0 src vertices) j ≡ false
        → t.previous j ≡ some p
        → At vertices p a
        → walk vertices src dst (suc fuel) t j acc
          ≡ walk vertices src dst fuel t p (acc ++ record { alias = a; link = t.link_type p } ∷ [])
    unfolding walk
    walk-back fuel j p a acc other back at_p = rw (other, walk) (rw back (rw at_p refl))

    not-start :
        (j : ℕ) (a : BuildAlias)
        → At vertices j a
        → (a == src) ≡ false
        → is_index (index_from 0 src vertices) j ≡ false
    not-start j a at_j other = elim (Option-cases (index_from 0 src vertices)) [
      | inl missing ↦ rw missing refl
      | inr (i, found) ↦
          let (m, e, at_m) = index_from-At 0 src vertices i found in
          elim (Bool-cases (eqb i j)) [
            | inr ne ↦ rw found ne
            | inl is ↦
                let here : m ≡ j = omega (arith, e, (eqb_iff i j).0 is) in
                let same : a ≡ src = cc (at_j, subst (λ k. At vertices k src) here at_m) in
                cc ((==_iff a src).1 same, other)
          ]
    ]

    pub walk-chain :
        (fuel j : ℕ) (a : BuildAlias) (acc : Links)
        → At vertices j a
        → t.distance j ≢ max_float
        → t.distance j < fuel
        → (rest : Links) × (walk vertices src dst fuel t j acc ≡ chain (acc ++ rest))
          × Follows links src a rest
          × (length rest ≡ t.distance j)
    walk-chain zero j a acc at_j finite h = absurd (omega (arith, h))
    walk-chain (suc fuel) j a acc at_j finite h = elim (Bool-cases (a == src)) [
      | inl is ↦
          let at_src = subst (At vertices j) ((==_iff a src).0 is) at_j in
          (
            [],
            walk-stop fuel j acc at_src ∙ ap chain (sym (append-nil acc)),
            sym ((==_iff a src).0 is),
            sym (source j at_src),
          )
      | inr other ↦ elim (sound j) [
        | inl e ↦ absurd (finite e)
        | inr r ↦ elim r.how [
          | inl first ↦ let same : a ≡ src = cc (at_j, first.0) in cc ((==_iff a src).1 same, other)
          | inr from ↦
              let p = from.index in
              let edge = from.edge in
              let l : BuildDependencyLink = record { alias = edge.source; link = t.link_type p } in
              let near : t.distance p < max_float =
                omega (arith, from.further, r.bound, few, max_float-large) in
              let (rest, e, follows, len) =
                walk-chain fuel p edge.source (acc ++ l ∷ []) edge.at_source
                  (λ is. omega (arith, near, is)) (omega (arith, from.further)) in
              (
                l ∷ rest,
                walk-back fuel j p edge.source acc (not-start j a at_j other) from.back
                      edge.at_source
                    ∙ (e ∙ ap chain (append_assoc acc (l ∷ []) rest)),
                (
                  record {
                    list = edge.list;
                    link = edge.link;
                    given = edge.given;
                    linked = edge.linked;
                    target = cc (edge.at_target, at_j);
                  },
                  follows,
                ),
                omega (arith, len, from.further),
              )
        ]
      ]
    ]
