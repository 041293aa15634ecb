-- ===== src/BuildGraph/Create.antt =====
-- `Create` of utils/BuildGraph.go.
pub mod Laws
pub mod Same
use ppb.Prelude.{
  ℕ, ◌≡◌, refl, Bool, true, false, ◌&&◌, ◌||◌, not, Option, none, some, List, [], ◌∷◌, arith,
  if◌then◌else◌, eqb, length, ◌==◌,
}
use ppb.BuildNode.Dependencies.{
  BuildAlias, BuildStamp, no_stamp, alias_comparable, BuildDependency, BuildDependencies, has,
  stamp_of, make_dirty,
}
use ppb.BuildExecution.Options.{BuildOptions}
use ppb.BuildNode.Node.{BuildNode, new_build_node, make_dirty_node}

-- A node that `Create` leaves, and whether it made the graph dirty.
pub record Created (B : Type 0) : Type 0 where
  pub node : BuildNode B
  pub graph_dirty : Bool

-- The stamp of a static dependency that was known before, or none.
unfoldable pub old_stamp : BuildDependencies → BuildAlias → BuildStamp
unfolding stamp_of
old_stamp deps a = elim (stamp_of deps a) [ none ↦ no_stamp | some s ↦ s ]

-- The loop over the static dependencies: the new dependencies, and the flag.
unfoldable pub new_static : BuildDependencies → Bool → List BuildAlias → BuildDependencies × Bool
unfolding old_stamp has
new_static old dirty [] = ([], dirty)
new_static old dirty (a ∷ static) =
    let rest = new_static old (dirty || not (has old a)) static in
    (record { alias = a; stamp = old_stamp old a } ∷ rest.0, rest.1)

module _ {B : Type 0} where
  -- `MakeBuildFingerprint(a) != MakeBuildFingerprint(b)`. `none` is the panic on an empty
  -- fingerprint.
  unfoldable pub fingerprints_differ : (B → ℕ) → B → B → Option Bool
  fingerprints_differ fingerprint a b =
      if eqb (fingerprint a) 0 || eqb (fingerprint b) 0
      then none
      else some (not (eqb (fingerprint a) (fingerprint b)))

  -- What is left to ask when the dependencies are the same.
  unfoldable pub is_dirty : (B → ℕ) → BuildOptions → BuildNode B → B → Bool → Option Bool
  unfolding fingerprints_differ
  is_dirty fingerprint options node buildable true = some true
  is_dirty fingerprint options node buildable false =
      if options.dirty
      then some true
      else if options.force
      then fingerprints_differ fingerprint buildable node.buildable
      else some false

  -- The node with the buildable and its static dependencies. A dirty one loses all the others, and
  -- the stamps.
  unfoldable pub overwrite : BuildNode B → B → BuildDependencies → Bool → Created B
  unfolding make_dirty_node make_dirty
  overwrite node buildable static false = record {
    node = record node { buildable = buildable; static = static };
    graph_dirty = false;
  }
  overwrite node buildable static true = record {
    node = make_dirty_node (record node { buildable = buildable; static = make_dirty static });
    graph_dirty = true;
  }

  -- The part of `Create` under the lock of the node, `loaded` or made.
  unfoldable pub update_node :
      (B → ℕ) → BuildOptions → Bool → BuildNode B → B → List BuildAlias → Option (Created B)
  unfolding new_static is_dirty overwrite
  update_node fingerprint options loaded node buildable static =
      let p =
        new_static node.static (not loaded || not (eqb (length static) (length node.static)))
          static in
      elim (is_dirty fingerprint options node buildable p.1) [
        | none ↦ none
        | some dirty ↦ some (overwrite node buildable p.0 dirty)
      ]

  -- `Create`, given the node of the same alias in the graph: with neither flag such a node is left
  -- as it is.
  unfoldable pub create :
      (B → ℕ)
      → BuildOptions
      → Option (BuildNode B)
      → BuildAlias
      → B
      → List BuildAlias
      → Option (Created B)
  unfolding update_node new_build_node
  create fingerprint options none alias buildable static =
      update_node fingerprint options false (new_build_node alias buildable) buildable static
  create fingerprint options (some node) alias buildable static =
      if options.force || options.dirty
      then update_node fingerprint options true node buildable static
      else some (record { node = node; graph_dirty = false })
