-- ===== src/BuildGraph/Chain/Ending.antt =====
-- The loop of the search ends, and no walk to the last vertex is shorter than its distance.
use ppb.Prelude.{
  ℕ, zero, suc, ◌^◌, ◌≤◌, ◌<◌, ◌≡◌, ◌≢◌, ◌⊎◌, inl, inr, refl, sym, ap, ◌∙◌, true, false, none, some,
  List, [], ◌∷◌, arith, eqb, eqb_iff, length, ◌==◌, ==_iff, Bool-cases, List-cases,
}
use mathlib.Core.Path.{subst}
use ppb.BuildNode.Dependencies.{BuildAlias, alias_comparable}
use ppb.BuildExecution.Environment.{Outcome, ok}
use ppb.BuildGraph.Chain.{
  Visiteds, delete, max_float, closest, Links, Search, relax, break, continue, Round, leave, round,
  loop,
}
use ppb.BuildGraph.Chain.Left.{waits, At, Indexed, delete-Indexed}
use ppb.BuildGraph.Chain.Closest.{IsClosest, KeepsEntries, closest-order}
use ppb.BuildGraph.Chain.Relax.{relax-Relaxed}
use ppb.BuildGraph.Chain.Invariant.{
  Edge, Reached, IsSearch, max_float-large, waits-without, shorter, waits-after, fewer,
  relaxed-IsSearch,
}

module _ (vertices : List BuildAlias) (src : BuildAlias) (links : BuildAlias → Outcome Links) where
  -- A walk of so many edges from `src` to the vertex of an index.
  abbrev pub WalkTo : ℕ → ℕ → Type 0
  WalkTo zero j = At vertices j src
  WalkTo (suc n) j = (i : ℕ) × WalkTo n i × Edge vertices src links i j

  -- The loop has ended, with the distance of the index `k` known.
  pub record Ended (k : ℕ) (s : Search) : Type 0 where
    pub sound : (j : ℕ) → (s.distance j ≡ max_float) ⊎ Reached vertices src links s j
    pub source : (i : ℕ) → At vertices i src → s.distance i ≡ 0
    pub least : (n : ℕ) → WalkTo n k → (s.distance k ≢ max_float) × (s.distance k ≤ n)

  module _ (s : Search) (inv : IsSearch vertices src links s) (min : ℕ)
      (nearest : IsClosest s.distance s.visiteds min) where
    -- The end of a walk is not further than the walk is long, unless the nearest vertex is not.
    walk-near : (n j : ℕ) → WalkTo n j → (s.distance j ≤ n) ⊎ (s.distance min ≤ n)
    walk-near zero j at_src = inl (omega (arith, inv.source j at_src))
    walk-near (suc n) j (i, walk, edge) = elim (walk-near n i walk) [
      | inr near ↦ inr (omega arith)
      | inl near ↦ elim (Bool-cases (waits i s.visiteds)) [
        | inl w ↦ inr (omega (arith, nearest.least i w))
        | inr gone ↦ inl (omega (arith, inv.closed i j gone edge))
      ]
    ]

    module _ (few : length vertices ≤ 2 ^ 24) (far : s.distance min ≡ max_float) where
      far-gone : (j : ℕ) → s.distance j < max_float → waits j s.visiteds ≡ false
      far-gone j h = elim (Bool-cases (waits j s.visiteds)) [
        | inl w ↦ absurd (omega (arith, nearest.least j w, far))
        | inr gone ↦ gone
      ]

      -- If the nearest vertex was not reached, the walks lead to vertices that are gone.
      walk-gone : (n j : ℕ) → WalkTo n j → waits j s.visiteds ≡ false
      walk-gone zero j at_src = far-gone j (omega (arith, inv.source j at_src, max_float-large))
      walk-gone (suc n) j (i, walk, edge) =
          let gone = walk-gone n i walk in
          far-gone j (elim (inv.sound i) [
            | inl e ↦ absurd (inv.settled i edge.source edge.at_source gone e)
            | inr r ↦ omega (arith, r.bound, few, inv.closed i j gone edge, max_float-large)
          ])

  -- The state without the entry of an alias.
  sound-delete :
      (s : Search) (u : BuildAlias)
      → ((j : ℕ) → waits j s.visiteds ≡ false → waits j (delete u s.visiteds) ≡ false)
      → length (delete u s.visiteds) < length s.visiteds
      → (j : ℕ) → (s.distance j ≡ max_float) ⊎ Reached vertices src links s j
      → (s.distance j ≡ max_float)
        ⊎ Reached vertices src links (record s { visiteds = delete u s.visiteds }) j
  sound-delete s u stays le j (inl e) = inl e
  sound-delete s u stays le j (inr r) = inr (record {
    bound = omega (arith, le, r.bound);
    how = elim r.how [
      | inl first ↦ inl first
      | inr from ↦ inr (record {
        index = from.index;
        back = from.back;
        gone = stays from.index from.gone;
        further = from.further;
        edge = from.edge;
      })
    ];
  })

module _ (vertices : List BuildAlias) (src dst : BuildAlias) (links : BuildAlias → Outcome Links)
    (order : Visiteds → Visiteds) (keeps : KeepsEntries order)
    (distinct : (i j : ℕ) (a : BuildAlias) → At vertices i a → At vertices j a → i ≡ j)
    (few : length vertices ≤ 2 ^ 24)
    (known : (i : ℕ) (u : BuildAlias) → At vertices i u → (ls : Links) × (links u ≡ ok ls)) (k : ℕ)
    (at_dst : At vertices k dst) where
  -- A round ends the loop, or leaves `dst` in a smaller map.
  abbrev Ends : Search → Round → Type 0
  Ends s r =
      ((t : Search) × (r ≡ break t) × Ended vertices src links k t)
      ⊎ ((t : Search) × (r ≡ continue t)
          × IsSearch vertices src links t
          × (waits k t.visiteds ≡ true)
          × (length t.visiteds < length s.visiteds))

  Indexed-At :
      (m : Visiteds) (j : ℕ)
      → Indexed vertices m
      → waits j m ≡ true
      → (a : BuildAlias) × At vertices j a
  Indexed-At [] j x h = cc
  Indexed-At ((a, i) ∷ rest) j x h = elim (Bool-cases (eqb i j)) [
    | inl e ↦ (a, subst (λ n. At vertices n a) ((eqb_iff i j).0 e) x.0)
    | inr ne ↦ Indexed-At rest j x.1 (ground (arith, ne, h))
  ]

  module _ (s : Search) (inv : IsSearch vertices src links s) (w : waits k s.visiteds ≡ true)
      (min : ℕ) (nearest : IsClosest s.distance s.visiteds min) where
    far-Ended : s.distance min ≡ max_float → Ended vertices src links k s
    far-Ended far = record {
      sound = inv.sound;
      source = inv.source;
      least = λ n walk. cc (w, walk-gone vertices src links s inv min nearest few far n k walk);
    }

    module _ (finite : s.distance min ≢ max_float) (u : BuildAlias)
        (at_min : At vertices min u) where
      found-Ended :
          u ≡ dst → Ended vertices src links k (record s { visiteds = delete u s.visiteds })
      found-Ended is =
          let here : min ≡ k = distinct min k dst (subst (At vertices min) is at_min) at_dst in
          let after =
            waits-without vertices src links distinct few s inv min u at_min nearest finite in
          record {
            sound = λ j.
                sound-delete vertices src links s u (λ i gone. ground (arith, after i, gone))
                  (shorter vertices src links distinct few s inv min u at_min nearest finite) j
                  (inv.sound j);
            source = inv.source;
            least = λ n walk. (
              subst (λ i. s.distance i ≢ max_float) here finite,
              elim (walk-near vertices src links s inv min nearest n k walk) [
                | inl le ↦ le
                | inr le ↦ omega (arith, ap s.distance here)
              ],
            );
          }

      leave-Ends : Ends s (leave vertices src dst links order s min u)
      unfolding leave
      leave-Ends = elim (Bool-cases (u == dst)) [
        | inl is ↦ inl (_, rw is refl, found-Ended ((==_iff u dst).0 is))
        | inr other ↦
            let (ls, given) = known min u at_min in
            let s' = record s { visiteds = delete u s.visiteds } in
            let t = relax min s' ls in
            let gone =
              waits-without vertices src links distinct few s inv min u at_min nearest finite min in
            let x =
              relax-Relaxed vertices min ls s' (delete-Indexed vertices u s.visiteds inv.indexed)
                (ground (arith, gone)) in
            let after =
              waits-after vertices src links distinct few s inv min u at_min nearest finite ls given
                t x k in
            let there : eqb k min ≡ false = elim (Bool-cases (eqb k min)) [
              | inl e ↦
                  let is = subst (λ i. At vertices i dst) ((eqb_iff k min).0 e) at_dst in
                  let same : u ≡ dst = cc (is, at_min) in cc ((==_iff u dst).1 same, other)
              | inr ne ↦ ne
            ] in
            inr (
              t,
              rw other (rw given refl),
              relaxed-IsSearch vertices src links distinct few s inv min u at_min nearest finite ls
                  given t x,
              ground (arith, after, there, w),
              omega (
                arith,
                fewer vertices src links distinct few s inv min u at_min nearest finite ls given t
                    x,
              ),
            )
      ]

  round-break :
      (s : Search) (min : ℕ)
      → closest s.distance none (order s.visiteds) ≡ some min
      → eqb (s.distance min) max_float ≡ true
      → round vertices src dst links order s ≡ break s
  unfolding round
  round-break s min found far = rw (found, round) (rw far refl)

  round-leave :
      (s : Search) (min : ℕ) (u : BuildAlias)
      → closest s.distance none (order s.visiteds) ≡ some min
      → eqb (s.distance min) max_float ≡ false
      → At vertices min u
      → round vertices src dst links order s ≡ leave vertices src dst links order s min u
  unfolding round
  round-leave s min u found near at_min = rw (found, round) (rw near (rw at_min refl))

  round-Ends :
      (s : Search)
      → IsSearch vertices src links s
      → waits k s.visiteds ≡ true
      → Ends s (round vertices src dst links order s)
  round-Ends s inv w =
      let (min, found, nearest) = closest-order order keeps s.distance s.visiteds k w in
      let (u, at_min) = Indexed-At s.visiteds min inv.indexed nearest.left in
      let test = eqb_iff (s.distance min) max_float in
      elim (Bool-cases (eqb (s.distance min) max_float)) [
        | inl far ↦ inl (s, round-break s min found far, far-Ended s inv w min nearest (test.0 far))
        | inr near ↦
            subst (Ends s) (sym (round-leave s min u found near at_min))
              (leave-Ends s inv w min nearest (λ e. cc (test.1 e, near)) u at_min)
      ]

  loop-break :
      (fuel : ℕ) (s t : Search) (x : BuildAlias × ℕ) (rest : Visiteds)
      → s.visiteds ≡ x ∷ rest
      → round vertices src dst links order s ≡ break t
      → loop vertices src dst links order (suc fuel) s ≡ break t
  unfolding loop
  loop-break fuel s t x rest is done = ground (arith, is, done)

  loop-continue :
      (fuel : ℕ) (s t : Search) (x : BuildAlias × ℕ) (rest : Visiteds)
      → s.visiteds ≡ x ∷ rest
      → round vertices src dst links order s ≡ continue t
      → loop vertices src dst links order (suc fuel) s ≡ loop vertices src dst links order fuel t
  unfolding loop
  loop-continue fuel s t x rest is goes = ground (arith, is, goes)

  pub loop-Ended :
      (fuel : ℕ) (s : Search)
      → IsSearch vertices src links s
      → waits k s.visiteds ≡ true
      → length s.visiteds < fuel
      → (t : Search) × (loop vertices src dst links order fuel s ≡ break t)
        × Ended vertices src links k t
  loop-Ended zero s inv w h = absurd (omega (arith, h))
  loop-Ended (suc fuel) s inv w h = elim (List-cases s.visiteds) [
    | inl empty ↦ cc (ap (waits k) empty, w)
    | inr (x, rest, is) ↦ elim (round-Ends s inv w) [
      | inl (t, done, ended) ↦ (t, loop-break fuel s t x rest is done, ended)
      | inr (t, goes, inv', w', le) ↦
          let (r, runs, ended) = loop-Ended fuel t inv' w' (omega arith) in
          (r, loop-continue fuel s t x rest is goes ∙ runs, ended)
    ]
  ]
