-- ===== src/BuildGraph/Chain/Graph.antt =====
-- `GetDependencyChain` of the nodes of a graph.
use ppb.Prelude.{
  ℕ, zero, suc, ◌^◌, ◌≤◌, ◌≡◌, ◌≢◌, inl, inr, refl, true, false, some, List, [], ◌∷◌, map, arith,
  length, length-map, get_elem?, elem, ◌==◌, ==_iff, ap, Bool-cases,
}
use ppb.BuildNode.Dependencies.{BuildAlias, alias_comparable}
use ppb.BuildNode.Node.{BuildNode}
use ppb.BuildExecution.Environment.{ok}
use ppb.Containers.Slice.{is_uniq}
use ppb.BuildNode.Links.{get_dependency_links as node_links}
use ppb.BuildGraph.Chain.{Visiteds, Links, get_dependency_links, get_dependency_chain}
use ppb.BuildGraph.Chain.Left.{At}
use ppb.BuildGraph.Chain.Closest.{KeepsEntries}
use ppb.BuildGraph.Chain.Answers.{Answers}
use ppb.BuildGraph.Chain.Shortest.{chain_of-Answers}

get_elem?-elem :
    (xs : List BuildAlias) (i : ℕ) (a : BuildAlias) → get_elem? xs i ≡ some a → elem a xs ≡ true
get_elem?-elem [] i a h = cc
get_elem?-elem (x ∷ xs) zero a h = ground (arith, h, ==_iff x a)
get_elem?-elem (x ∷ xs) (suc i) a h = ground (arith, get_elem?-elem xs i a h)

elem-get_elem? :
    (xs : List BuildAlias) (a : BuildAlias) → elem a xs ≡ true → (i : ℕ) × (get_elem? xs i ≡ some a)
elem-get_elem? [] a h = cc
elem-get_elem? (x ∷ xs) a h = elim (Bool-cases (x == a)) [
  | inl e ↦ (0, ap some ((==_iff x a).0 e))
  | inr ne ↦ let (i, at_i) = elem-get_elem? xs a (ground (arith, ne, h)) in (suc i, at_i)
]

is_uniq-distinct :
    (xs : List BuildAlias)
    → is_uniq xs ≡ true
    → (i j : ℕ) (a : BuildAlias) → At xs i a
    → At xs j a
    → i ≡ j
unfolding is_uniq
is_uniq-distinct [] u i j a p q = cc
is_uniq-distinct (x ∷ xs) u zero zero a p q = refl
is_uniq-distinct (x ∷ xs) u zero (suc j) a p q = ground (arith, u, p, get_elem?-elem xs j a q)
is_uniq-distinct (x ∷ xs) u (suc i) zero a p q = ground (arith, u, q, get_elem?-elem xs i a p)
is_uniq-distinct (x ∷ xs) u (suc i) (suc j) a p q =
    ground (arith, u, is_uniq-distinct xs (ground (arith, u)) i j a p q)

module _ {B : Type 0} where
  -- `g.nodes.Keys()`
  abbrev pub keys : List (BuildNode B) → List BuildAlias
  keys nodes = map (λ node. node.alias) nodes

  links_known :
      (nodes : List (BuildNode B)) (u : BuildAlias)
      → elem u (keys nodes) ≡ true
      → (ls : Links) × (get_dependency_links nodes u false ≡ ok ls)
  unfolding get_dependency_links
  links_known [] u h = cc
  links_known (node ∷ nodes) u h = elim (Bool-cases (node.alias == u)) [
    | inl e ↦ (node_links node false, ground (arith, e))
    | inr ne ↦
        let (ls, given) = links_known nodes u (ground (arith, ne, h)) in
        (ls, ground (arith, ne, given))
  ]

  links_only :
      (nodes : List (BuildNode B)) (u : BuildAlias) (ls : Links)
      → get_dependency_links nodes u false ≡ ok ls
      → elem u (keys nodes) ≡ true
  unfolding get_dependency_links
  links_only [] u ls h = cc
  links_only (node ∷ nodes) u ls h = elim (Bool-cases (node.alias == u)) [
    | inl e ↦ ground (arith, e)
    | inr ne ↦ ground (arith, links_only nodes u ls (ground (arith, ne, h)))
  ]

  -- For two aliases that are not the same, the second of them in a graph of at most 2 ^ 24 nodes with
  -- aliases of their own, in whatever order the loops go through the map: if the function returns a
  -- chain, it begins with the second alias, each alias of it has a link to the one before, the last one
  -- is the first alias, and no walk over links is shorter; it returns that there is no link only if
  -- there is no walk; and it returns one of the two.
  pub get_dependency_chain-Answers :
      (nodes : List (BuildNode B)) (order : Visiteds → Visiteds) (src dst : BuildAlias)
      → is_uniq (keys nodes) ≡ true
      → length nodes ≤ 2 ^ 24
      → KeepsEntries order
      → src ≢ dst
      → elem dst (keys nodes) ≡ true
      → Answers
          (λ a. get_dependency_links nodes a false)
          src
          dst
          (get_dependency_chain nodes order src dst)
  unfolding get_dependency_chain
  get_dependency_chain-Answers nodes order src dst uniq few keeps apart there =
      let (k, at_dst) = elem-get_elem? (keys nodes) dst there in
      chain_of-Answers (keys nodes) src dst (λ a. get_dependency_links nodes a false)
        (is_uniq-distinct (keys nodes) uniq)
        (omega (arith, few, length-map (λ (node : BuildNode B). node.alias) nodes)) order keeps
        (λ i u at_u. links_known nodes u (get_elem?-elem (keys nodes) i u at_u))
        (λ u ls given. elem-get_elem? (keys nodes) u (links_only nodes u ls given)) k apart at_dst
