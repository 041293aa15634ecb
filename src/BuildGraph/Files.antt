-- ===== src/BuildGraph/Files.antt =====
-- `GetDependencyOutputFiles` and `GetDependencyInputFiles` of utils/BuildGraph.go: searches with a
-- queue that is taken from its end, so that the queue here has its last value first.
pub mod Fuel
pub mod Round
pub mod Reach
pub mod Found
use ppb.Prelude.{
  ℕ, zero, suc, ◌+◌, ◌-◌, ◌≡◌, refl, Bool, true, false, ◌&&◌, ◌||◌, not, Option, none, some, List,
  [], ◌∷◌, ◌++◌, arith, if◌then◌else◌, ltb, length, ◌==◌, elem, Comparable,
}
use mathlib.Core.List.{reverse}
use ppb.Containers.SetT.{append_uniq}
use ppb.BuildNode.Dependencies.{BuildAlias, alias_comparable, aliases}
use ppb.BuildNode.Node.{BuildNode}
use ppb.BuildExecution.Environment.{Outcome, ok, err, BuildError, not_found}

-- `if _, ok := visiteds[a]; !ok { visiteds[a] = true; queue = append(queue, a) }` for each alias: the
-- visited aliases, and the queue.
unfoldable pub push_new :
    List BuildAlias → List BuildAlias → List BuildAlias → List BuildAlias × List BuildAlias
push_new visited queue [] = (visited, queue)
push_new visited queue (a ∷ next) =
    let seen = push_new visited queue next in
    let fresh = push_new (a ∷ visited) (a ∷ queue) next in if elem a visited then seen else fresh

module _ {B : Type 0} where
  -- `Expect`
  unfoldable pub find_node : List (BuildNode B) → BuildAlias → Option (BuildNode B)
  find_node [] a = none
  find_node (node ∷ nodes) a =
      let rest = find_node nodes a in if node.alias == a then some node else rest

module _ {F : Type 0} ⦃e : Comparable F⦄ where
  -- The file of a buildable that is a source file or a generated file joins the set.
  unfoldable pub add_file : List F → Option F → List F
  unfolding append_uniq
  add_file files none = files
  add_file files (some file) = (append_uniq files (file ∷ [])).0

module _ {B F : Type 0} ⦃e : Comparable F⦄ where
  -- The loop: each node of the queue gives its file, and the aliases that `next` finds in it. `none`
  -- means that the fuel was not enough.
  unfoldable pub search :
      (List (BuildNode B))
      → (B → Option F)
      → (BuildNode B → List BuildAlias)
      → ℕ
      → List F
      → List BuildAlias
      → List BuildAlias
      → Option (Outcome (List F))
  unfolding push_new find_node add_file
  search nodes file_of next zero files visited queue = none
  search nodes file_of next (suc fuel) files visited [] = some (ok files)
  search nodes file_of next (suc fuel) files visited (a ∷ queue) = elim (find_node nodes a) [
    | none ↦ some (err (not_found a))
    | some node ↦
        let p = push_new visited queue (next node) in
        search nodes file_of next fuel (add_file files (file_of node.buildable)) p.0 p.1
  ]

-- Every alias that the nodes can push.
abbrev pub all_next :
    {B : Type 0} → (BuildNode B → List BuildAlias) → List (BuildNode B) → List BuildAlias
all_next next [] = []
all_next next (node ∷ nodes) = next node ++ all_next next nodes

module _ {B F : Type 0} ⦃e : Comparable F⦄ where
  -- The loop of `GetDependencyInputFiles`, with `lenUserInput`: a node is followed with `recursive`,
  -- or while that count is positive.
  unfoldable pub search_input :
      Bool
      → List (BuildNode B)
      → (B → Option F)
      → (BuildNode B → List BuildAlias)
      → ℕ
      → ℕ
      → List F
      → List BuildAlias
      → List BuildAlias
      → Option (Outcome (List F))
  unfolding push_new find_node add_file
  search_input recursive nodes file_of next zero left files visited queue = none
  search_input recursive nodes file_of next (suc fuel) left files visited [] = some (ok files)
  search_input recursive nodes file_of next (suc fuel) left files visited (a ∷ queue) =
      elim (find_node nodes a) [
        | none ↦ some (err (not_found a))
        | some node ↦
            let p = push_new visited queue (if recursive || ltb 0 left then next node else []) in
            search_input recursive nodes file_of next fuel (left - 1)
              (add_file files (file_of node.buildable)) p.0 p.1
      ]

-- The aliases that each of the two functions follows.
abbrev pub output_next : {B : Type 0} → BuildNode B → List BuildAlias
output_next node = aliases node.output_files ++ node.output_nodes

abbrev pub input_next : {B : Type 0} → BuildNode B → List BuildAlias
input_next node = aliases node.static ++ aliases node.dynamic

-- Enough for every alias to be taken from the queue once, after those that it starts with.
abbrev pub enough :
    {B : Type 0} → (BuildNode B → List BuildAlias) → List (BuildNode B) → List BuildAlias → ℕ
enough next nodes queue = suc (length queue + length (all_next next nodes))

module _ {B F : Type 0} ⦃e : Comparable F⦄ where
  unfoldable pub get_dependency_output_files :
      List (BuildNode B) → (B → Option F) → List BuildAlias → Option (Outcome (List F))
  unfolding search
  get_dependency_output_files nodes file_of queue =
      search nodes file_of output_next (enough output_next nodes queue) [] [] (reverse queue)

  unfoldable pub get_dependency_input_files :
      Bool → List (BuildNode B) → (B → Option F) → List BuildAlias → Option (Outcome (List F))
  unfolding search_input
  get_dependency_input_files recursive nodes file_of queue =
      search_input recursive nodes file_of input_next (enough input_next nodes queue) (length queue)
        [] [] (reverse queue)
