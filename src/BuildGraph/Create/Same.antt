-- ===== src/BuildGraph/Create/Same.antt =====
-- A node that is created again as it was.
use ppb.Prelude.{
  ℕ, suc, ◌≡◌, ◌≢◌, refl, ap, true, false, some, [], ◌∷◌, ◌++◌, arith, length, ==-refl,
}
use mathlib.Core.List.{append_assoc}
use ppb.Containers.Slice.{is_uniq}
use ppb.BuildNode.Dependencies.{
  BuildAlias, alias_comparable, BuildDependency, BuildDependencies, aliases, has,
}
use ppb.BuildNode.Dependencies.Update.{stamp_of-middle, Fresh, Fresh-of_uniq}
use ppb.BuildNode.Node.{BuildNode}
use ppb.BuildExecution.Options.{BuildOptions}
use ppb.BuildGraph.Create.{
  old_stamp, new_static, fingerprints_differ, is_dirty, overwrite, update_node, create,
}

has-middle :
    (done : BuildDependencies) (it : BuildDependency) (rest : BuildDependencies)
    → has (done ++ it ∷ rest) it.alias ≡ true
unfolding has
has-middle [] it rest = ground (arith, ==-refl it.alias)
has-middle (d ∷ done) it rest = ground (arith, has-middle done it rest)

-- Every old dependency is found at its place.
new_static-middle :
    (done rest : BuildDependencies)
    → Fresh done rest
    → new_static (done ++ rest) false (aliases rest) ≡ (rest, false)
unfolding new_static old_stamp aliases
new_static-middle done [] h = refl
new_static-middle done (it ∷ rest) h = ground (
  arith,
  stamp_of-middle done it rest,
  has-middle done it rest,
  append_assoc done (it ∷ []) rest,
  new_static-middle (done ++ it ∷ []) rest h.1,
)

length-aliases : (deps : BuildDependencies) → length (aliases deps) ≡ length deps
unfolding aliases
length-aliases [] = refl
length-aliases (it ∷ deps) = ap suc (length-aliases deps)

-- A forced `Create`, not a dirty one, of a node of the graph with the static dependencies that it
-- has, none of them twice, and with a buildable of the same fingerprint, which is not empty: the
-- buildable is replaced, all else is kept with its stamps, and the graph is not dirty.
pub create_same :
    {B : Type 0} (fingerprint : B → ℕ) (options : BuildOptions) (node : BuildNode B)
    (alias : BuildAlias) (buildable : B)
    → is_uniq (aliases node.static) ≡ true
    → options.dirty ≡ false
    → options.force ≡ true
    → fingerprint buildable ≡ fingerprint node.buildable
    → fingerprint buildable ≢ 0
    → create fingerprint options (some node) alias buildable (aliases node.static)
      ≡ some (record { node = record node { buildable = buildable }; graph_dirty = false })
unfolding create update_node is_dirty overwrite fingerprints_differ
create_same fingerprint options node alias buildable u d f same valid =
    let kept =
      new_static-middle [] node.static
        (Fresh-of_uniq [] node.static (λ a. unfold has in ground arith) u) in
    ground (arith, length-aliases node.static, kept)
