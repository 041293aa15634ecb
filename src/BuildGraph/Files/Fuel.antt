-- ===== src/BuildGraph/Files/Fuel.antt =====
-- The searches for files end.
use ppb.Prelude.{
  ℕ, zero, suc, ◌+◌, ◌≤◌, ◌<◌, ◌≡◌, refl, true, false, Option, some, List, [], ◌∷◌, ◌++◌, arith,
  if◌then◌else◌, length, ◌==◌, ==-refl, elem, elem-append, Comparable, Option-cases, Bool-cases,
  inl, inr,
}
use ppb.BuildNode.Dependencies.{BuildAlias, alias_comparable, alias_equals_iff}
use ppb.BuildNode.Node.{BuildNode}
use ppb.BuildExecution.Environment.{Outcome, err, not_found}
use ppb.BuildGraph.Files.{push_new, find_node, add_file, search, all_next}

-- How many aliases of the list have not been visited.
abbrev pub unvisited : List BuildAlias → List BuildAlias → ℕ
unvisited visited [] = 0
unvisited visited (a ∷ all) = (if elem a visited then 0 else 1) + unvisited visited all

-- Every alias of the first list is in the second.
abbrev pub AllIn : List BuildAlias → List BuildAlias → Type 0
AllIn [] all = Unit
AllIn (a ∷ next) all = (elem a all ≡ true) × AllIn next all

unvisited-cons :
    (a : BuildAlias) (visited all : List BuildAlias)
    → unvisited (a ∷ visited) all ≤ unvisited visited all
unvisited-cons a visited [] = omega arith
unvisited-cons a visited (b ∷ all) = ground (arith, unvisited-cons a visited all)

unvisited-new :
    (a : BuildAlias) (visited all : List BuildAlias)
    → elem a all ≡ true
    → elem a visited ≡ false
    → unvisited (a ∷ visited) all < unvisited visited all
unvisited-new a visited [] h n = cc
unvisited-new a visited (b ∷ all) h n = ground (
  arith,
  unvisited-new a visited all,
  unvisited-cons a visited all,
  alias_equals_iff b a,
  alias_equals_iff a b,
)

push_new-unvisited :
    (visited queue next all : List BuildAlias)
    → AllIn next all
    → length (push_new visited queue next).1 + unvisited (push_new visited queue next).0 all
      ≤ length queue + unvisited visited all
unfolding push_new
push_new-unvisited visited queue [] all h = omega arith
push_new-unvisited visited queue (a ∷ next) all h = ground (
  arith,
  push_new-unvisited visited queue next all h.1,
  push_new-unvisited (a ∷ visited) (a ∷ queue) next all h.1,
  unvisited-new a visited all h.0,
)

AllIn-append :
    (next before after : List BuildAlias) → AllIn next after → AllIn next (before ++ after)
AllIn-append [] before after h = tt
AllIn-append (a ∷ next) before after h =
    (ground (arith, elem-append a before after), AllIn-append next before after h.1)

AllIn-prefix : (next after : List BuildAlias) → AllIn next (next ++ after)
AllIn-prefix [] after = tt
AllIn-prefix (a ∷ next) after = (
  ground (arith, ==-refl a),
  AllIn-append next (a ∷ []) (next ++ after) (AllIn-prefix next after),
)

module _ {B : Type 0} where
  pub find_node-AllIn :
      (next : BuildNode B → List BuildAlias) (nodes : List (BuildNode B)) (a : BuildAlias)
      (node : BuildNode B)
      → find_node nodes a ≡ some node
      → AllIn (next node) (all_next next nodes)
  unfolding find_node
  find_node-AllIn next [] a node h = cc
  find_node-AllIn next (n ∷ nodes) a node h = elim (Bool-cases (n.alias == a)) [
    | inl same ↦
        let first : n ≡ node = ground arith in
        rw (← first) (AllIn-prefix (next n) (all_next next nodes))
    | inr other ↦
        AllIn-append (next node) (next n) (all_next next nodes)
          (find_node-AllIn next nodes a node (ground arith))
  ]

module _ {B F : Type 0} ⦃e : Comparable F⦄ where
  -- With more fuel than there are aliases in the queue and aliases left to visit, the search returns.
  pub search_returns :
      (nodes : List (BuildNode B)) (file_of : B → Option F) (next : BuildNode B → List BuildAlias)
      (fuel : ℕ) (files : List F) (visited queue : List BuildAlias)
      → length queue + unvisited visited (all_next next nodes) < fuel
      → (out : Outcome (List F)) × (search nodes file_of next fuel files visited queue ≡ some out)
  unfolding search
  search_returns nodes file_of next zero files visited queue h = absurd (omega arith)
  search_returns nodes file_of next (suc fuel) files visited [] h = (_, refl)
  search_returns nodes file_of next (suc fuel) files visited (a ∷ queue) h =
      elim (Option-cases (find_node nodes a)) [
        | inl missing ↦ (err (not_found a), ground (arith, missing))
        | inr (node, found) ↦
            let p = push_new visited queue (next node) in
            let (out, r) =
              search_returns nodes file_of next fuel (add_file files (file_of node.buildable)) p.0
                p.1
                (omega (
                  arith,
                  h,
                  push_new-unvisited visited queue (next node) (all_next next nodes)
                      (find_node-AllIn next nodes a node found),
                )) in
            (out, ground (arith, found, r))
      ]
