-- ===== src/BuildGraph/Chain.antt =====
-- `GetDependencyChain` of utils/BuildGraph.go, and `GetDependencyLinks`. The slices that it fills by the
-- indices of the vertices are families; the loops over the map of the vertices that are left go through
-- it in the order that `order` gives. The weight is not a parameter, since the code does not call it.
pub mod Left
pub mod Closest
pub mod Relax
pub mod Invariant
pub mod Start
pub mod Ending
pub mod Answers
pub mod Back
pub mod Shortest
pub mod Graph
mod Runs
use ppb.Prelude.{
  ℕ, zero, suc, ◌+◌, ◌-◌, ◌^◌, ◌≡◌, Bool, true, false, Option, none, some, List, [], ◌∷◌, ◌++◌, map,
  if◌then◌else◌, eqb, ltb, length, get_elem?, update, ◌==◌,
}
use ppb.BuildNode.Dependencies.{BuildAlias, alias_comparable, BuildDependency}
use ppb.BuildNode.Node.{BuildNode}
use ppb.BuildExecution.Environment.{Outcome, ok, err, BuildError, not_found}
use ppb.BuildNode.Links.{
  BuildDependencyType, root, BuildDependencyLink, get_dependency_links as node_links,
}
use ppb.BuildGraph.Files.{find_node}

abbrev pub Links : Type 0
Links = List BuildDependencyLink

module _ {B : Type 0} where
  -- `GetDependencyLinks` of the graph
  unfoldable pub get_dependency_links : List (BuildNode B) → BuildAlias → Bool → Outcome Links
  unfolding find_node node_links
  get_dependency_links nodes a include_outputs = elim (find_node nodes a) [
    | none ↦ err (not_found a)
    | some node ↦ ok (node_links node include_outputs)
  ]

-- The map from the vertices that are left to their indices.
abbrev pub Visiteds : Type 0
Visiteds = List (BuildAlias × ℕ)

-- `visiteds[v]`
abbrev pub find : BuildAlias → Visiteds → Option ℕ
find v [] = none
find v ((a, i) ∷ rest) = if a == v then some i else find v rest

-- `delete(visiteds, u)`
abbrev pub delete : BuildAlias → Visiteds → Visiteds
delete u [] = []
delete u ((a, i) ∷ entries) = let rest = delete u entries in if a == u then rest else (a, i) ∷ rest

-- `previous` has `none` for `INDEX_NONE`.
pub record Search : Type 0 where
  pub visiteds : Visiteds
  pub distance : ℕ → ℕ
  pub previous : ℕ → Option ℕ
  pub link_type : ℕ → BuildDependencyType

-- `math.MaxFloat32`
unfoldable pub max_float : ℕ
max_float = 2 ^ 128 - 2 ^ 104

-- `distances[min] + 1` of a `float32` that is a whole number: the sum is exact below 2 ^ 24, and
-- 2 ^ 24 + 1 is rounded to 2 ^ 24.
abbrev pub plus_one : ℕ → ℕ
plus_one d = if ltb d (2 ^ 24) then d + 1 else d

-- The loop that looks for the least distance among the indices of a map.
unfoldable pub closest : (ℕ → ℕ) → Option ℕ → Visiteds → Option ℕ
closest distance min [] = min
closest distance none ((a, i) ∷ rest) = closest distance (some i) rest
closest distance (some min) ((a, i) ∷ rest) =
    closest distance (some (if ltb (distance i) (distance min) then i else min)) rest

-- The body of the loop over the links of the vertex `min`.
unfoldable pub relax_link : ℕ → Search → BuildDependencyLink → Search
relax_link min s l = elim (find l.alias s.visiteds) [
  | none ↦ s
  | some j ↦
      let alt = plus_one (s.distance min) in
      if ltb alt (s.distance j)
      then record s {
        distance = update s.distance j alt;
        previous = update s.previous j (some min);
        link_type = update s.link_type j l.link;
      }
      else s
]

unfoldable pub relax : ℕ → Search → Links → Search
relax min s [] = s
relax min s (l ∷ links) = relax min (relax_link min s l) links

-- What a round of the search does: the loop ends after it or goes on, or the function fails.
pub data Round : Type 0 where
  break continue : Search → Round
  failed : BuildError → Round
  no_index : Round

-- What the function does; `index_panic` where it uses the index -1.
pub data Chained : Type 0 where
  chain : Links → Chained
  not_linked index_panic out_of_fuel : Chained
  link_error : BuildError → Chained

-- The vertices with their indices, from `i` on.
unfoldable pub entries : ℕ → List BuildAlias → Visiteds
entries i [] = []
entries i (a ∷ rest) = (a, i) ∷ entries (suc i) rest

-- The last place of an alias, as the first loop leaves it.
unfoldable pub index_from : ℕ → BuildAlias → List BuildAlias → Option ℕ
index_from i a [] = none
index_from i a (b ∷ rest) = elim (index_from (suc i) a rest) [
  | some j ↦ some j
  | none ↦ if b == a then some i else none
]

-- Whether a number is that index, which may be `INDEX_NONE`.
abbrev pub is_index : Option ℕ → ℕ → Bool
is_index none index = false
is_index (some i) index = eqb i index

module _ (vertices : List BuildAlias) (src dst : BuildAlias) where
  unfoldable pub start : Search
  unfolding entries max_float
  start = record {
    visiteds = entries 0 vertices;
    distance = λ i. elim (get_elem? vertices i) [
      | none ↦ max_float
      | some a ↦ if a == src then 0 else max_float
    ];
    previous = λ i. none;
    link_type = λ i. root;
  }

  module _ (links : BuildAlias → Outcome Links) (order : Visiteds → Visiteds) where
    -- The second half of a round, for the vertex `u` of the index `min`.
    unfoldable pub leave : Search → ℕ → BuildAlias → Round
    unfolding relax relax_link
    leave s min u =
        let s' = record s { visiteds = delete u s.visiteds } in
        if u == dst
        then break s'
        else elim (links u) [ err e ↦ failed e | ok ls ↦ continue (relax min s' ls) ]

    unfoldable pub round : Search → Round
    unfolding closest leave max_float
    round s = elim (closest s.distance none (order s.visiteds)) [
      | none ↦ no_index
      | some min ↦
          if eqb (s.distance min) max_float
          then break s
          else elim (get_elem? vertices min) [ none ↦ no_index | some u ↦ leave s min u ]
    ]

    -- The loop. `continue` is left where the fuel is not enough.
    unfoldable pub loop : ℕ → Search → Round
    unfolding round
    loop zero s = continue s
    loop (suc fuel) s = elim s.visiteds [
      | [] ↦ break s
      | _ ∷ _ ↦ elim (round s) [ continue s' ↦ loop fuel s' | other ↦ other ]
    ]

  -- The loop that goes back from `index`; `acc` is the chain so far.
  unfoldable pub walk : ℕ → Search → ℕ → Links → Chained
  unfolding index_from
  walk zero s index acc = out_of_fuel
  walk (suc fuel) s index acc = elim (is_index (index_from 0 src vertices) index) [
    | true ↦ chain acc
    | false ↦ elim (s.previous index) [
      | none ↦ index_panic
      | some p ↦ elim (get_elem? vertices p) [
        | none ↦ index_panic
        | some a ↦ walk fuel s p (acc ++ record { alias = a; link = s.link_type p } ∷ [])
      ]
    ]
  ]

  -- What follows the loop. `dst` is looked for where a vertex is not `src`.
  unfoldable pub trace_back : Search → Chained
  unfolding index_from walk max_float
  trace_back s = elim (if src == dst then none else index_from 0 dst vertices) [
    | none ↦ index_panic
    | some j ↦
        if eqb (s.distance j) max_float
        then not_linked
        else walk (suc (length vertices)) s j (record { alias = dst; link = root } ∷ [])
  ]

  unfoldable pub chain_of : (BuildAlias → Outcome Links) → (Visiteds → Visiteds) → Chained
  unfolding start loop trace_back
  chain_of links order =
      if eqb (length vertices) 0
      then chain []
      else elim (loop links order (suc (length vertices)) start) [
        | break s ↦ trace_back s
        | continue s ↦ out_of_fuel
        | failed e ↦ link_error e
        | no_index ↦ index_panic
      ]

module _ {B : Type 0} where
  -- The keys of the map of the nodes come in the order of `nodes`.
  unfoldable pub get_dependency_chain :
      List (BuildNode B) → (Visiteds → Visiteds) → BuildAlias → BuildAlias → Chained
  unfolding get_dependency_links chain_of
  get_dependency_chain nodes order src dst =
      chain_of (map (λ node. node.alias) nodes) src dst (λ a. get_dependency_links nodes a false)
        order
