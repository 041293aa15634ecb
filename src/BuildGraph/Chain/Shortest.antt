-- ===== src/BuildGraph/Chain/Shortest.antt =====
-- The chain follows the links back from `dst` to `src`, and no walk is shorter.
use ppb.Prelude.{
  ℕ, zero, suc, ◌^◌, ◌≤◌, ◌<◌, ◌≡◌, ◌≢◌, inl, inr, refl, sym, ◌∙◌, true, false, List, [], ◌∷◌,
  arith, eqb, eqb_iff, length, ==_iff, Bool-cases,
}
use mathlib.Core.Path.{subst}
use ppb.BuildNode.Dependencies.{BuildAlias, alias_comparable}
use ppb.BuildExecution.Environment.{Outcome, ok}
use ppb.BuildNode.Links.{root}
use ppb.BuildGraph.Chain.{
  Visiteds, max_float, Links, Search, not_linked, start, loop, walk, trace_back, chain_of, break,
}
use ppb.BuildGraph.Chain.Left.{At}
use ppb.BuildGraph.Chain.Answers.{Walk, Answers}
use ppb.BuildGraph.Chain.Closest.{KeepsEntries}
use ppb.BuildGraph.Chain.Start.{waits-start, length-start, start-IsSearch}
use ppb.BuildGraph.Chain.Ending.{WalkTo, Ended, loop-Ended}
use ppb.BuildGraph.Chain.Back.{index-At, walk-chain}

not-empty :
    (vertices : List BuildAlias) (k : ℕ) (a : BuildAlias)
    → At vertices k a
    → eqb (length vertices) 0 ≡ false
not-empty [] k a h = cc
not-empty (x ∷ vertices) k a h = ground arith

module _ (vertices : List BuildAlias) (src dst : BuildAlias) (links : BuildAlias → Outcome Links)
    (distinct : (i j : ℕ) (a : BuildAlias) → At vertices i a → At vertices j a → i ≡ j)
    (few : length vertices ≤ 2 ^ 24) where
  Walk-WalkTo :
      ((u : BuildAlias) (ls : Links) → links u ≡ ok ls → (i : ℕ) × At vertices i u)
      → (n j : ℕ) (v : BuildAlias) → At vertices j v
      → Walk links src n v
      → WalkTo vertices src links n j
  Walk-WalkTo only zero j v at_j is = subst (At vertices j) (sym is) at_j
  Walk-WalkTo only (suc n) j v at_j (u, walk, link) =
      let (i, at_i) = only u link.list link.given in
      (
        i,
        Walk-WalkTo only n i u at_i walk,
        record {
          source = u;
          list = link.list;
          link = link.link;
          at_source = at_i;
          given = link.given;
          linked = link.linked;
          at_target = subst (At vertices j) (sym link.target) at_j;
        },
      )

  trace_back-far :
      (t : Search) (k : ℕ)
      → src ≢ dst
      → At vertices k dst
      → eqb (t.distance k) max_float ≡ true
      → trace_back vertices src dst t ≡ not_linked
  unfolding trace_back
  trace_back-far t k apart at_dst far =
      ground (arith, ==_iff src dst, index-At vertices src dst links distinct few k dst at_dst, far)

  trace_back-walk :
      (t : Search) (k : ℕ)
      → src ≢ dst
      → At vertices k dst
      → eqb (t.distance k) max_float ≡ false
      → trace_back vertices src dst t
        ≡ walk vertices src dst
            (suc (length vertices))
            t
            k
            (record { alias = dst; link = root } ∷ [])
  unfolding trace_back
  trace_back-walk t k apart at_dst near =
      ground
        (arith, ==_iff src dst, index-At vertices src dst links distinct few k dst at_dst, near)

  trace_back-Answers :
      ((u : BuildAlias) (ls : Links) → links u ≡ ok ls → (i : ℕ) × At vertices i u)
      → (t : Search) (k : ℕ) → src ≢ dst
      → At vertices k dst
      → Ended vertices src links k t
      → Answers links src dst (trace_back vertices src dst t)
  trace_back-Answers only t k apart at_dst ended =
      elim (Bool-cases (eqb (t.distance k) max_float)) [
        | inl far ↦
            subst (Answers links src dst) (sym (trace_back-far t k apart at_dst far)) (λ n walk.
              (ended.least n (Walk-WalkTo only n k dst at_dst walk)).0
                ((eqb_iff (t.distance k) max_float).0 far))
        | inr near ↦
            let finite : t.distance k ≢ max_float =
              λ e. cc ((eqb_iff (t.distance k) max_float).1 e, near) in
            let bound : t.distance k < suc (length vertices) = elim (ended.sound k) [
              | inl e ↦ absurd (finite e)
              | inr r ↦ omega (arith, r.bound)
            ] in
            let (rest, e, follows, len) =
              walk-chain vertices src dst links distinct few t ended.sound ended.source
                (suc (length vertices)) k dst (record { alias = dst; link = root } ∷ []) at_dst
                finite bound in
            subst (Answers links src dst) (sym (trace_back-walk t k apart at_dst near ∙ e)) (
              refl,
              follows,
              λ n walk.
                  omega (arith, len, (ended.least n (Walk-WalkTo only n k dst at_dst walk)).1),
            )
      ]

  module _ (order : Visiteds → Visiteds) (keeps : KeepsEntries order)
      (known : (i : ℕ) (u : BuildAlias) → At vertices i u → (ls : Links) × (links u ≡ ok ls))
      (only : (u : BuildAlias) (ls : Links) → links u ≡ ok ls → (i : ℕ) × At vertices i u) where
    chain_of-trace_back :
        (t : Search)
        → eqb (length vertices) 0 ≡ false
        → loop vertices src dst links order (suc (length vertices)) (start vertices src dst)
          ≡ break t
        → chain_of vertices src dst links order ≡ trace_back vertices src dst t
    unfolding chain_of
    chain_of-trace_back t some_there e = rw some_there (rw e refl)

    pub chain_of-Answers :
        (k : ℕ)
        → src ≢ dst
        → At vertices k dst
        → Answers links src dst (chain_of vertices src dst links order)
    chain_of-Answers k apart at_dst =
        let (t, e, ended) =
          loop-Ended vertices src dst links order keeps distinct few known k at_dst
            (suc (length vertices)) (start vertices src dst) (start-IsSearch vertices src dst links)
            (waits-start vertices src dst links k dst at_dst)
            (omega (arith, length-start vertices src dst links)) in
        let some_there : eqb (length vertices) 0 ≡ false = not-empty vertices k dst at_dst in
        subst (Answers links src dst) (sym (chain_of-trace_back t some_there e))
          (trace_back-Answers only t k apart at_dst ended)
