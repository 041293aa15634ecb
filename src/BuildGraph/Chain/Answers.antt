-- ===== src/BuildGraph/Chain/Answers.antt =====
-- What `GetDependencyChain` of utils/BuildGraph.go is to return.
use ppb.Prelude.{ℕ, zero, suc, ◌≤◌, ◌≡◌, [], ◌∷◌, length}
use mathlib.Core.List.{Memᴰ}
use ppb.BuildNode.Dependencies.{BuildAlias}
use ppb.BuildExecution.Environment.{Outcome, ok}
use ppb.BuildNode.Links.{BuildDependencyLink}
use ppb.BuildGraph.Chain.{Links, Chained, chain, not_linked, index_panic, out_of_fuel, link_error}

module _ (links : BuildAlias → Outcome Links) where
  -- `u` has a link to `v`.
  pub record Linked (u v : BuildAlias) : Type 0 where
    pub list : Links
    pub link : BuildDependencyLink
    pub given : links u ≡ ok list
    pub linked : Memᴰ link list
    pub target : link.alias ≡ v

module _ (links : BuildAlias → Outcome Links) (src : BuildAlias) where
  -- A walk of so many links from `src`.
  abbrev pub Walk : ℕ → BuildAlias → Type 0
  Walk zero v = src ≡ v
  Walk (suc n) v = (u : BuildAlias) × Walk n u × Linked links u v

  -- Each vertex of the list has a link to the one before it, and the last one is `src`.
  abbrev pub Follows : BuildAlias → Links → Type 0
  Follows v [] = src ≡ v
  Follows v (l ∷ rest) = Linked links l.alias v × Follows l.alias rest

module _ (links : BuildAlias → Outcome Links) (src dst : BuildAlias) where
  -- What the function is to return: a chain of `dst` and what follows it, as short as any walk, or that
  -- there is no walk.
  abbrev pub Answers : Chained → Type 0
  Answers (chain []) = ⊥
  Answers (chain (l ∷ rest)) =
      (l.alias ≡ dst)
      × Follows links src dst rest
      × ((n : ℕ) → Walk links src n dst → length rest ≤ n)
  Answers not_linked = (n : ℕ) → ¬ Walk links src n dst
  Answers index_panic = ⊥
  Answers out_of_fuel = ⊥
  Answers (link_error e) = ⊥
