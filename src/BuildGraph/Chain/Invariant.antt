-- ===== src/BuildGraph/Chain/Invariant.antt =====
-- What holds before each round of the search: the vertices that are gone have their distances, and the
-- others have none that is too short.
use ppb.Prelude.{
  ℕ, ◌+◌, ◌^◌, ◌≤◌, ◌<◌, ◌≡◌, ◌≢◌, ◌⊎◌, inl, inr, sym, ap, ◌∙◌, true, false, ◌&&◌, not, some, List,
  arith, eqb, eqb_iff, length, Bool-cases,
}
use mathlib.Core.Path.{subst}
use mathlib.Core.List.{Memᴰ}
use ppb.BuildNode.Dependencies.{BuildAlias}
use ppb.BuildExecution.Environment.{Outcome, ok}
use ppb.BuildNode.Links.{BuildDependencyLink}
use ppb.BuildGraph.Chain.{delete, plus_one, max_float, Links, Search}
use ppb.BuildGraph.Chain.Left.{
  waits, At, Indexed, delete-Indexed, waits-find, waits-delete, length-delete,
}
use ppb.BuildGraph.Chain.Closest.{IsClosest}
use ppb.BuildGraph.Chain.Relax.{Relaxed, Relaxed-le}

pub max_float-large : 2 ^ 24 + 1 < max_float
unfolding max_float
max_float-large = omega arith

module _ (vertices : List BuildAlias) (src : BuildAlias) (links : BuildAlias → Outcome Links) where
  -- The vertex of the index `i` has a link to that of the index `j`.
  pub record Edge (i j : ℕ) : Type 0 where
    pub source : BuildAlias
    pub list : Links
    pub link : BuildDependencyLink
    pub at_source : At vertices i source
    pub given : links source ≡ ok list
    pub linked : Memᴰ link list
    pub at_target : At vertices j link.alias

  -- The index was reached over a link from one that is gone.
  pub record From (s : Search) (j : ℕ) : Type 0 where
    pub index : ℕ
    pub back : s.previous j ≡ some index
    pub gone : waits index s.visiteds ≡ false
    pub further : s.distance j ≡ s.distance index + 1
    pub edge : Edge index j

  pub record Reached (s : Search) (j : ℕ) : Type 0 where
    pub bound : s.distance j + length s.visiteds ≤ length vertices
    pub how : (At vertices j src × (s.distance j ≡ 0)) ⊎ From s j

  pub record IsSearch (s : Search) : Type 0 where
    pub indexed : Indexed vertices s.visiteds
    pub source : (i : ℕ) → At vertices i src → s.distance i ≡ 0
    pub sound : (j : ℕ) → (s.distance j ≡ max_float) ⊎ Reached s j
    pub closed : (i j : ℕ) → waits i s.visiteds ≡ false → Edge i j → s.distance j ≤ s.distance i + 1
    pub below :
        (i j : ℕ) (a : BuildAlias)
        → At vertices i a
        → waits i s.visiteds ≡ false
        → waits j s.visiteds ≡ true
        → s.distance i ≤ s.distance j
    pub settled :
        (i : ℕ) (a : BuildAlias)
        → At vertices i a
        → waits i s.visiteds ≡ false
        → s.distance i ≢ max_float

  module _ (distinct : (i j : ℕ) (a : BuildAlias) → At vertices i a → At vertices j a → i ≡ j)
      (few : length vertices ≤ 2 ^ 24) (s : Search) (inv : IsSearch s) (min : ℕ) (u : BuildAlias)
      (at_min : At vertices min u) (nearest : IsClosest s.distance s.visiteds min)
      (finite : s.distance min ≢ max_float) where
    abbrev pub without : Search
    without = record s { visiteds = delete u s.visiteds }

    pub waits-without :
        (j : ℕ) → waits j (delete u s.visiteds) ≡ (waits j s.visiteds && not (eqb j min))
    waits-without j = waits-delete vertices distinct u min s.visiteds j inv.indexed at_min

    bound-min : s.distance min + length s.visiteds ≤ length vertices
    bound-min = elim (inv.sound min) [ inl e ↦ absurd (finite e) | inr r ↦ r.bound ]

    pub shorter : length (delete u s.visiteds) < length s.visiteds
    shorter = length-delete vertices distinct u min s.visiteds inv.indexed at_min nearest.left

    exact : plus_one (s.distance min) ≡ s.distance min + 1
    exact = ground (arith, bound-min, shorter, few)

    module _ (ls : Links) (given : links u ≡ ok ls) (t : Search)
        (x : Relaxed vertices min ls without t) where
      pub waits-after : (j : ℕ) → waits j t.visiteds ≡ (waits j s.visiteds && not (eqb j min))
      waits-after j = ap (waits j) x.left ∙ waits-without j

      -- The distances of those that are gone stay.
      gone-distance : (i : ℕ) → waits i t.visiteds ≡ false → t.distance i ≡ s.distance i
      gone-distance i h = elim (x.each i) [
        | inl kept ↦ kept.0
        | inr near ↦ cc (x.left, near.waiting, h)
      ]

      least-after : (j : ℕ) → waits j t.visiteds ≡ true → s.distance min ≤ t.distance j
      least-after j h = elim (x.each j) [
        | inl kept ↦ ground (arith, kept.0, nearest.least j, waits-after j)
        | inr near ↦ omega (arith, near.now, exact)
      ]

      gone-le :
          (i : ℕ) (a : BuildAlias)
          → At vertices i a
          → waits i t.visiteds ≡ false
          → s.distance i ≤ s.distance min
      gone-le i a at_i h = ground (arith, waits-after i, inv.below i min a at_i, nearest.left)

      From-kept :
          (j : ℕ) → t.distance j ≡ s.distance j → t.previous j ≡ s.previous j → From s j → From t j
      From-kept j same_distance same_previous from =
          let away : waits from.index t.visiteds ≡ false =
            ground (arith, waits-after from.index, from.gone) in
          record {
            index = from.index;
            back = same_previous ∙ from.back;
            gone = away;
            further = omega (arith, same_distance, from.further, gone-distance from.index away);
            edge = from.edge;
          }

      min-gone : waits min t.visiteds ≡ false
      min-gone = ground (arith, waits-after min)

      pub fewer : length t.visiteds + 1 ≤ length s.visiteds
      fewer = omega (arith, ap length x.left, shorter)

      sound-after : (j : ℕ) → (t.distance j ≡ max_float) ⊎ Reached t j
      sound-after j = elim (x.each j) [
        | inl kept ↦ elim (inv.sound j) [
          | inl e ↦ inl (kept.0 ∙ e)
          | inr r ↦ inr (record {
            bound = omega (arith, kept.0, fewer, r.bound);
            how = elim r.how [
              | inl first ↦ inl (first.0, kept.0 ∙ first.1)
              | inr from ↦ inr (From-kept j kept.0 kept.1 from)
            ];
          })
        ]
        | inr near ↦ inr (record {
          bound = omega (arith, near.now, exact, fewer, bound-min);
          how = inr (record {
            index = min;
            back = near.from;
            gone = min-gone;
            further = omega (arith, near.now, exact, gone-distance min min-gone);
            edge = record {
              source = u;
              list = ls;
              link = near.target;
              at_source = at_min;
              given = given;
              linked = near.linked;
              at_target = near.place;
            };
          });
        })
      ]

      closed-min : (j : ℕ) → Edge min j → t.distance j ≤ s.distance min + 1
      closed-min j edge = elim (Bool-cases (waits j t.visiteds)) [
        | inl w ↦
            let listed : edge.list ≡ ls = cc (at_min, edge.at_source, given, edge.given) in
            let found =
              waits-find vertices distinct edge.link.alias (delete u s.visiteds) j
                (delete-Indexed vertices u s.visiteds inv.indexed) edge.at_target
                (ap (waits j) (sym x.left) ∙ w) in
            omega (
              arith,
              x.reached edge.link j (subst (Memᴰ edge.link) listed edge.linked) found,
              exact,
            )
        | inr gone ↦
            omega (arith, gone-distance j gone, gone-le j edge.link.alias edge.at_target gone)
      ]

      closed-after :
          (i j : ℕ) → waits i t.visiteds ≡ false → Edge i j → t.distance j ≤ t.distance i + 1
      closed-after i j h edge = elim (Bool-cases (eqb i min)) [
        | inl e ↦
            let is = (eqb_iff i min).0 e in
            omega (
              arith,
              closed-min j (subst (λ k. Edge k j) is edge),
              gone-distance i h,
              ap s.distance is,
            )
        | inr ne ↦ omega (
          arith,
          gone-distance i h,
          Relaxed-le vertices min without t ls x j,
          inv.closed i j (ground (arith, waits-after i, h, ne)) edge,
        )
      ]

      pub relaxed-IsSearch : IsSearch t
      relaxed-IsSearch = record {
        indexed =
            subst (Indexed vertices) (sym x.left)
              (delete-Indexed vertices u s.visiteds inv.indexed);
        source = λ i at_i. elim (x.each i) [
          | inl kept ↦ kept.0 ∙ inv.source i at_i
          | inr near ↦ omega (arith, near.before, inv.source i at_i)
        ];
        sound = sound-after;
        closed = closed-after;
        below =
            λ i j a at_i h w. omega (arith, gone-distance i h, gone-le i a at_i h, least-after j w);
        settled = λ i a at_i h e. elim (Bool-cases (eqb i min)) [
          | inl is ↦
              finite (ap s.distance (sym ((eqb_iff i min).0 is)) ∙ (sym (gone-distance i h) ∙ e))
          | inr ne ↦
              inv.settled i a at_i (ground (arith, waits-after i, h, ne))
                (sym (gone-distance i h) ∙ e)
        ];
      }
