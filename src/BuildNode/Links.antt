-- ===== src/BuildNode/Links.antt =====
-- `BuildDependencyType`, `BuildDependencyLink` and `GetDependencyLinks` of utils/BuildNode.go.
use ppb.Prelude.{ℕ, Bool, true, false, ◌||◌, List, [], ◌∷◌, ◌++◌, if◌then◌else◌, ltb}
use ppb.BuildNode.Dependencies.{BuildAlias, aliases}
use ppb.BuildNode.Node.{BuildNode}

pub data BuildDependencyType : Type 0 where
  root output static dynamic : BuildDependencyType

-- The values of the constants, with the order of `int32`: ROOT is -1, below OUTPUT, which `iota`
-- makes 1. One is added to each.
unfoldable pub ord : BuildDependencyType → ℕ
ord root = 0
ord output = 2
ord static = 3
ord dynamic = 4

abbrev is_root : BuildDependencyType → Bool
is_root root = true
is_root output = false
is_root static = false
is_root dynamic = false

-- `Combine`: the new value of the receiver.
unfoldable pub combine : BuildDependencyType → BuildDependencyType → BuildDependencyType
unfolding ord
combine x y = if ltb (ord y) (ord x) || is_root x then y else x

pub record BuildDependencyLink : Type 0 where
  pub alias : BuildAlias
  pub link : BuildDependencyType

abbrev link_as : BuildDependencyType → List BuildAlias → List BuildDependencyLink
link_as type [] = []
link_as type (a ∷ rest) = record { alias = a; link = type } ∷ link_as type rest

unfoldable pub get_dependency_links : {B : Type 0} → BuildNode B → Bool → List BuildDependencyLink
unfolding aliases
get_dependency_links node include_outputs =
    link_as static (aliases node.static)
    ++ (link_as dynamic (aliases node.dynamic)
        ++ (if include_outputs
            then link_as output (aliases node.output_files) ++ link_as output node.output_nodes
            else []))
