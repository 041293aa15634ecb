-- ===== src/BuildGraph/Create/Laws.antt =====
-- When `Create` makes a node dirty, and what it keeps of a node that was there.
use ppb.Prelude.{
  ℕ, ◌≡◌, ◌≢◌, refl, Bool, true, false, ◌||◌, not, Option, none, some, List, [], ◌∷◌, arith, eqb,
  length, elem, Option-cases, inl, inr, ◌∙◌,
}
use ppb.BuildNode.Dependencies.{
  BuildAlias, alias_comparable, BuildDependencies, BuildResult, aliases, has, has-elem, make_dirty,
  validate, aliases-make_dirty, is_empty-make_dirty,
}
use ppb.BuildNode.Dependencies.Update.{differs-make_dirty}
use ppb.BuildNode.Node.{BuildNode, new_build_node, make_dirty_node}
use ppb.BuildExecution.Environment.{Environment, ok}
use ppb.BuildExecution.Check.{has_no_deps}
use ppb.BuildExecution.Check.Laws.{Results}
use ppb.BuildExecution.Execute.{Executed, execute}
use ppb.BuildExecution.UpToDate.{execute_minimal}
use ppb.BuildExecution.Options.{BuildOptions}
use ppb.BuildGraph.Create.{
  Created, new_static, fingerprints_differ, is_dirty, overwrite, update_node, create,
}

-- Whether some alias is not recorded.
abbrev pub lacks_some : BuildDependencies → List BuildAlias → Bool
lacks_some old [] = false
lacks_some old (a ∷ static) = not (elem a (aliases old)) || lacks_some old static

new_static_flag :
    (old : BuildDependencies) (dirty : Bool) (static : List BuildAlias)
    → (new_static old dirty static).1 ≡ (dirty || lacks_some old static)
unfolding new_static
new_static_flag old dirty [] = ground arith
new_static_flag old dirty (a ∷ static) =
    ground (arith, new_static_flag old (dirty || not (has old a)) static, has-elem old a)

aliases-new_static :
    (old : BuildDependencies) (dirty : Bool) (static : List BuildAlias)
    → aliases (new_static old dirty static).0 ≡ static
unfolding new_static aliases
aliases-new_static old dirty [] = refl
aliases-new_static old dirty (a ∷ static) =
    ground (arith, aliases-new_static old (dirty || not (has old a)) static)

module _ {B : Type 0} where
  is_dirty_lem :
      (fingerprint : B → ℕ) (options : BuildOptions) (node : BuildNode B) (buildable : B)
      (dirty : Bool)
      → ((b : B) → fingerprint b ≢ 0)
      → (options.force || options.dirty) ≡ true
      → is_dirty fingerprint options node buildable dirty
        ≡ some (
            dirty
            || options.dirty
            || not (eqb (fingerprint buildable) (fingerprint node.buildable)))
  unfolding is_dirty fingerprints_differ
  is_dirty_lem fingerprint options node buildable true f o = refl
  is_dirty_lem fingerprint options node buildable false f o =
      ground (arith, f buildable, f node.buildable)

  overwrite_lem :
      (node : BuildNode B) (buildable : B) (static : BuildDependencies) (dirty : Bool)
      → ((overwrite node buildable static dirty).graph_dirty ≡ dirty)
        × (aliases (overwrite node buildable static dirty).node.static ≡ aliases static)
        × ((overwrite node buildable static dirty).node.buildable ≡ buildable)
        × ((overwrite node buildable static dirty).node.stamp ≡ node.stamp)
  unfolding overwrite make_dirty_node
  overwrite_lem node buildable static true = (refl, aliases-make_dirty static, refl, refl)
  overwrite_lem node buildable static false = (refl, refl, refl, refl)

  -- With one of the flags, a node of the graph takes the buildable and the static dependencies that
  -- are given, in their order, and keeps its stamp. It is dirty exactly when the number of them
  -- differs, or one of them is new, or the build is to be dirty, or the fingerprint of the buildable
  -- differs. Fingerprints are not empty.
  pub create_lem :
      (fingerprint : B → ℕ) (options : BuildOptions) (node : BuildNode B) (alias : BuildAlias)
      (buildable : B) (static : List BuildAlias)
      → ((b : B) → fingerprint b ≢ 0)
      → (options.force || options.dirty) ≡ true
      → (x : Created B) × (create fingerprint options (some node) alias buildable static ≡ some x)
        × (x.graph_dirty ≡ (
            not (eqb (length static) (length node.static))
            || lacks_some node.static static
            || options.dirty
            || not (eqb (fingerprint buildable) (fingerprint node.buildable))))
        × (aliases x.node.static ≡ static)
        × (x.node.buildable ≡ buildable)
        × (x.node.stamp ≡ node.stamp)
  unfolding create update_node
  create_lem fingerprint options node alias buildable static f o =
      let more = not (eqb (length static) (length node.static)) in
      let p = new_static node.static more static in
      let dirty =
        p.1 || options.dirty || not (eqb (fingerprint buildable) (fingerprint node.buildable)) in
      let seen = is_dirty_lem fingerprint options node buildable p.1 f o in
      let (same_dirty, same_static, same_buildable, same_stamp) =
        overwrite_lem node buildable p.0 dirty in
      (
        overwrite node buildable p.0 dirty,
        ground (arith, seen),
        ground (arith, same_dirty, new_static_flag node.static more static),
        same_static ∙ aliases-new_static node.static more static,
        same_buildable,
        same_stamp,
      )

  -- What is left of the dependencies of a dirty node: the static ones, without their stamps.
  abbrev IsEmptied : BuildNode B → Type 0
  IsEmptied node =
      (deps : BuildDependencies) × (node.static ≡ make_dirty deps)
      × (node.dynamic ≡ [])
      × (node.output_files ≡ [])

  update_node-dirty :
      (fingerprint : B → ℕ) (options : BuildOptions) (loaded : Bool) (node : BuildNode B)
      (buildable : B) (static : List BuildAlias) (x : Created B)
      → update_node fingerprint options loaded node buildable static ≡ some x
      → x.graph_dirty ≡ true
      → IsEmptied x.node
  unfolding update_node overwrite make_dirty_node
  update_node-dirty fingerprint options loaded node buildable static x h d =
      let more = not loaded || not (eqb (length static) (length node.static)) in
      let p = new_static node.static more static in
      elim (Option-cases (is_dirty fingerprint options node buildable p.1)) [
        | inl e ↦ absurd (ground (arith, e))
        | inr (false, e) ↦ absurd (ground (arith, e))
        | inr (true, e) ↦ (p.0, ground (arith, e), ground (arith, e), ground (arith, e))
      ]

  create-dirty :
      (fingerprint : B → ℕ) (options : BuildOptions) (found : Option (BuildNode B))
      (alias : BuildAlias) (buildable : B) (static : List BuildAlias) (x : Created B)
      → create fingerprint options found alias buildable static ≡ some x
      → x.graph_dirty ≡ true
      → IsEmptied x.node
  unfolding create
  create-dirty fingerprint options none alias buildable static x h d =
      update_node-dirty fingerprint options false (new_build_node alias buildable) buildable static
        x h d
  create-dirty fingerprint options (some node) alias buildable static x h d =
      update_node-dirty fingerprint options true node buildable static x (ground arith) d

  -- A node that `Create` made dirty is built by the next run in which its static dependencies succeed
  -- with valid stamps, in a release build whose fingerprints are never empty, without an abort, if it
  -- has static dependencies.
  pub created_dirty_builds :
      (options : BuildOptions) (found : Option (BuildNode B)) (alias : BuildAlias) (buildable : B)
      (static : List BuildAlias) (x : Created B) (env : Environment B) {rs rd ro : List BuildResult}
      → create env.fingerprint options found alias buildable static ≡ some x
      → x.graph_dirty ≡ true
      → has_no_deps x.node ≡ false
      → env.debug ≡ false
      → ((b : B) → env.fingerprint b ≢ 0)
      → env.abort ≡ none
      → env.prepared ≡ ok rs
      → Results env x.node rs rd ro
      → validate rs ≡ true
      → (y : Executed B) × (execute false env x.node ≡ some y) × (y.built ≡ true)
  created_dirty_builds options found alias buildable static x env {rs} {rd} {ro} h d deps debug f a
        p r v =
      let (old, s, dyn, files) =
        create-dirty env.fingerprint options found alias buildable static x h d in
      let (y, ran, minimal) = execute_minimal env x.node false debug f a deps p r in
      let changed = differs-make_dirty old rs (rw s at r.static_fits.same) v in
      (y, ran, ground (arith, minimal, changed, s, dyn, files, deps, is_empty-make_dirty old))
