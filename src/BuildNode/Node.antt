-- ===== src/BuildNode/Node.antt =====
-- `buildNode` of utils/BuildNode.go. The type `B` of the buildables is a parameter.
use ppb.Prelude.{
  assertion, Bool, false, ◌&&◌, ◌||◌, not, Option, none, some, List, [], ◌∷◌, ◌++◌, if◌then◌else◌,
  ◌==◌, list_comparable, nat_comparable, elem,
}
use ppb.BuildNode.Dependencies.{
  BuildAlias, alias_comparable, BuildStamp, no_stamp, is_valid, BuildDependencies, aliases, has,
  add,
}
use ppb.Containers.SetT.{append_uniq}

pub record BuildNode (B : Type 0) : Type 0 where
  pub alias : BuildAlias
  pub buildable : B
  pub stamp : BuildStamp
  pub static : BuildDependencies
  pub dynamic : BuildDependencies
  pub output_files : BuildDependencies
  pub output_nodes : List BuildAlias

-- `BuildAlias.Valid`: the name is not empty.
abbrev pub is_alias : BuildAlias → Bool
is_alias a = not (a.name == [])

-- The loop of `DependsOn` over one of the two lists.
any_of : BuildDependencies → List BuildAlias → Bool
unfolding has
any_of deps [] = false
any_of deps (a ∷ wanted) = has deps a || any_of deps wanted

module _ {B : Type 0} where
  -- `newBuildNode`
  unfoldable pub new_build_node : BuildAlias → B → BuildNode B
  new_build_node a builder = record {
    alias = a;
    buildable = builder;
    stamp = no_stamp;
    static = [];
    dynamic = [];
    output_files = [];
    output_nodes = [];
  }

  -- `GetOutputDependencies`
  unfoldable pub get_output_dependencies : BuildNode B → List BuildAlias
  unfolding aliases
  get_output_dependencies node = aliases node.output_files ++ node.output_nodes

  -- `DependsOn`: whether some of the aliases is a static or a dynamic dependency.
  unfoldable pub depends_on : BuildNode B → List BuildAlias → Bool
  unfolding any_of
  depends_on node wanted = any_of node.static wanted || any_of node.dynamic wanted

  -- `makeDirty_AssumeLocked`: all but the static dependencies is forgotten.
  unfoldable pub make_dirty_node : BuildNode B → BuildNode B
  make_dirty_node node = record node { dynamic = []; output_files = []; output_nodes = [] }

  -- The assertions of `addDynamic_AssumeLocked`.
  dynamic_asserts : BuildNode B → BuildAlias → BuildStamp → Bool
  unfolding has
  dynamic_asserts node a s =
      is_valid s
      && is_alias a
      && not (node.alias == a)
      && not (has node.static a)
      && not (has node.output_files a)
      && not (elem a node.output_nodes)

  -- `none` is the panic of a failed assertion.
  unfoldable pub add_dynamic : Bool → BuildNode B → BuildAlias → BuildStamp → Option (BuildNode B)
  unfolding dynamic_asserts add
  add_dynamic debug node a s =
      if assertion debug (dynamic_asserts node a s)
      then some (record node { dynamic = add node.dynamic a s })
      else none

  -- The assertions of `addOutputFile_AssumeLocked`.
  output_file_asserts : BuildNode B → BuildAlias → BuildStamp → Bool
  unfolding has
  output_file_asserts node a s =
      is_valid s
      && is_alias a
      && not (node.alias == a)
      && not (has node.static a)
      && not (has node.dynamic a)
      && not (elem a node.output_nodes)

  unfoldable pub add_output_file :
      Bool → BuildNode B → BuildAlias → BuildStamp → Option (BuildNode B)
  unfolding output_file_asserts add
  add_output_file debug node a s =
      if assertion debug (output_file_asserts node a s)
      then some (record node { output_files = add node.output_files a s })
      else none

  -- The assertions of `addOutputNode_AssumeLocked`.
  output_node_asserts : BuildNode B → BuildAlias → Bool
  unfolding has
  output_node_asserts node a =
      is_alias a
      && not (node.alias == a)
      && not (has node.static a)
      && not (has node.dynamic a)
      && not (has node.output_files a)

  unfoldable pub add_output_node : Bool → BuildNode B → BuildAlias → Option (BuildNode B)
  unfolding output_node_asserts append_uniq
  add_output_node debug node a =
      if assertion debug (output_node_asserts node a)
      then some (record node { output_nodes = (append_uniq node.output_nodes (a ∷ [])).0 })
      else none
