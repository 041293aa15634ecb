-- ===== src/BuildGraph/Chain/Relax.antt =====
-- What the loop over the links of a vertex changes.
use ppb.Prelude.{
  ℕ, ◌≤◌, ◌<◌, ◌≡◌, ◌⊎◌, inl, inr, refl, sym, ap, ◌∙◌, true, false, none, some, List, [], ◌∷◌,
  arith, eqb, ltb, update, Option-cases, Bool-cases,
}
use mathlib.Core.Path.{subst}
use mathlib.Core.List.{Memᴰ}
use mathlib.Core.List.Memᴰ
use ppb.BuildNode.Dependencies.{BuildAlias, alias_comparable}
use ppb.BuildNode.Links.{BuildDependencyLink}
use ppb.BuildGraph.Chain.{find, plus_one, Links, Search, relax, relax_link}
use ppb.BuildGraph.Chain.Left.{waits, find-waits, At, Indexed, find-At}

module _ (vertices : List BuildAlias) (min : ℕ) where
  -- The index is as it was before, or one of the links leads to it, it waits, and it has come nearer.
  pub record Nearer (links : Links) (s t : Search) (j : ℕ) : Type 0 where
    pub waiting : waits j s.visiteds ≡ true
    pub target : BuildDependencyLink
    pub linked : Memᴰ target links
    pub place : At vertices j target.alias
    pub before : plus_one (s.distance min) < s.distance j
    pub now : t.distance j ≡ plus_one (s.distance min)
    pub from : t.previous j ≡ some min

  abbrev pub Kept : Search → Search → ℕ → Type 0
  Kept s t j = (t.distance j ≡ s.distance j) × (t.previous j ≡ s.previous j)

  pub record Relaxed (links : Links) (s t : Search) : Type 0 where
    pub left : t.visiteds ≡ s.visiteds
    pub each : (j : ℕ) → Kept s t j ⊎ Nearer links s t j
    pub reached :
        (l : BuildDependencyLink) (j : ℕ)
        → Memᴰ l links
        → find l.alias s.visiteds ≡ some j
        → t.distance j ≤ plus_one (s.distance min)

  -- The state where the distance of the index `k` falls.
  moved : Search → ℕ → BuildDependencyLink → Search
  moved s k l = record s {
    distance = update s.distance k (plus_one (s.distance min));
    previous = update s.previous k (some min);
    link_type = update s.link_type k l.link;
  }

  relax_link-absent :
      (s : Search) (l : BuildDependencyLink)
      → find l.alias s.visiteds ≡ none
      → relax_link min s l ≡ s
  unfolding relax_link
  relax_link-absent s l h = rw (h, relax_link)

  relax_link-far :
      (s : Search) (l : BuildDependencyLink) (k : ℕ)
      → find l.alias s.visiteds ≡ some k
      → ltb (plus_one (s.distance min)) (s.distance k) ≡ false
      → relax_link min s l ≡ s
  unfolding relax_link
  relax_link-far s l k h far = rw (h, relax_link) (rw far)

  relax_link-near :
      (s : Search) (l : BuildDependencyLink) (k : ℕ)
      → find l.alias s.visiteds ≡ some k
      → ltb (plus_one (s.distance min)) (s.distance k) ≡ true
      → relax_link min s l ≡ moved s k l
  unfolding relax_link moved
  relax_link-near s l k h near = rw (h, relax_link) (rw near)

  moved-Nearer :
      (s : Search) (l : BuildDependencyLink) (k j : ℕ)
      → Indexed vertices s.visiteds
      → find l.alias s.visiteds ≡ some k
      → ltb (plus_one (s.distance min)) (s.distance k) ≡ true
      → Kept s (moved s k l) j ⊎ Nearer (l ∷ []) s (moved s k l) j
  unfolding moved
  moved-Nearer s l k j indexed found near = elim (Bool-cases (eqb k j)) [
    | inl e ↦ inr (record {
      waiting = find-waits l.alias s.visiteds (ground (arith, found, e));
      target = l;
      linked = Memᴰ.head refl;
      place = find-At vertices l.alias s.visiteds indexed (ground (arith, found, e));
      before = ground (arith, e, near);
      now = ground (arith, e);
      from = ground (arith, e);
    })
    | inr ne ↦ inl (ground (arith, ne))
  ]

  module _ (s : Search) (indexed : Indexed vertices s.visiteds) where
    relax_link_lem : (l : BuildDependencyLink) → Relaxed (l ∷ []) s (relax_link min s l)
    unfolding moved
    relax_link_lem l =
        let only =
          λ (l' : BuildDependencyLink) (j : ℕ) (m : Memᴰ l' (l ∷ []))
              (e : find l'.alias s.visiteds ≡ some j).
            subst (λ x. find x.alias s.visiteds ≡ some j) (Memᴰ.eq_of_singleton m) e in
        elim (Option-cases (find l.alias s.visiteds)) [
          | inl missing ↦ subst (Relaxed (l ∷ []) s) (sym (relax_link-absent s l missing)) (record {
            left = refl;
            each = λ j. inl (refl, refl);
            reached = λ l' j m e. absurd (cc (missing, only l' j m e));
          })
          | inr (k, found) ↦ elim (Bool-cases (ltb (plus_one (s.distance min)) (s.distance k))) [
            | inl near ↦
                subst (Relaxed (l ∷ []) s) (sym (relax_link-near s l k found near)) (record {
                  left = refl;
                  each = λ j. moved-Nearer s l k j indexed found near;
                  reached = λ l' j m e. ground (arith, found, only l' j m e);
                })
            | inr far ↦ subst (Relaxed (l ∷ []) s) (sym (relax_link-far s l k found far)) (record {
              left = refl;
              each = λ j. inl (refl, refl);
              reached = λ l' j m e. ground (arith, found, far, only l' j m e);
            })
          ]
        ]

  pub Relaxed-le :
      (s t : Search) (links : Links) → Relaxed links s t → (j : ℕ) → t.distance j ≤ s.distance j
  Relaxed-le s t links x j = elim (x.each j) [
    | inl kept ↦ omega (arith, kept.0)
    | inr near ↦ omega (arith, near.now, near.before)
  ]

  module _ (s r t : Search) (gone : waits min s.visiteds ≡ false) where
    -- The distance of the vertex itself does not change, since it does not wait.
    pub Relaxed-min : (links : Links) → Relaxed links s r → r.distance min ≡ s.distance min
    Relaxed-min links x = elim (x.each min) [
      | inl kept ↦ kept.0
      | inr near ↦ cc (gone, near.waiting)
    ]

    Relaxed-cons :
        (l : BuildDependencyLink) (links : Links)
        → Relaxed (l ∷ []) s r
        → Relaxed links r t
        → Relaxed (l ∷ links) s t
    Relaxed-cons l links first rest =
        let same = Relaxed-min (l ∷ []) first in
        record {
          left = rest.left ∙ first.left;
          each = λ j. elim (rest.each j) [
            | inr near ↦ inr (record {
              waiting = rw (← first.left) near.waiting;
              target = near.target;
              linked = Memᴰ.tail near.linked;
              place = near.place;
              before =
                  omega (arith, near.before, Relaxed-le s r (l ∷ []) first j, ap plus_one same);
              now = near.now ∙ ap plus_one same;
              from = near.from;
            })
            | inl kept ↦ elim (first.each j) [
              | inl before ↦ inl (kept.0 ∙ before.0, kept.1 ∙ before.1)
              | inr near ↦ inr (record {
                waiting = near.waiting;
                target = near.target;
                linked = Memᴰ.head (Memᴰ.eq_of_singleton near.linked);
                place = near.place;
                before = near.before;
                now = kept.0 ∙ near.now;
                from = kept.1 ∙ near.from;
              })
            ]
          ];
          reached = λ l' j m e. elim (Memᴰ.cases_cons m) [
            | inl is ↦
                omega (arith, first.reached l' j (Memᴰ.head is) e, Relaxed-le r t links rest j)
            | inr in_rest ↦
                omega (arith, rest.reached l' j in_rest (rw first.left e), ap plus_one same)
          ];
        }

  pub relax-Relaxed :
      (links : Links) (s : Search)
      → Indexed vertices s.visiteds
      → waits min s.visiteds ≡ false
      → Relaxed links s (relax min s links)
  unfolding relax
  relax-Relaxed [] s indexed gone = record {
    left = refl;
    each = λ j. inl (refl, refl);
    reached = λ l j m e. absurd (Memᴰ.not-nil m);
  }
  relax-Relaxed (l ∷ links) s indexed gone =
      let r = relax_link min s l in
      let first = relax_link_lem s indexed l in
      let keep = sym first.left in
      Relaxed-cons s r (relax min r links) gone l links first
        (relax-Relaxed links r (subst (Indexed vertices) keep indexed) (rw first.left gone))
