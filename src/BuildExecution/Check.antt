-- ===== src/BuildExecution/Check.antt =====
-- `buildOutputFiles_assumeLocked` and `needToBuild_assumeLocked` of utils/BuildExecution.go.
pub mod Laws
use ppb.Prelude.{
  ℕ, ◌≡◌, refl, Bool, true, false, ◌&&◌, ◌||◌, not, Option, none, some, List, [], ◌∷◌, arith,
  if◌then◌else◌, eqb,
}
use mathlib.Core.Option
use ppb.BuildNode.Dependencies.{
  BuildAlias, BuildStamp, is_valid, BuildDependency, BuildDependencies, BuildResult, update_build,
  is_empty,
}
use ppb.BuildNode.Links.{static, dynamic}
use ppb.BuildNode.Node.{BuildNode}
use ppb.BuildExecution.Environment.{BuildError, dependency, Outcome, ok, err, Environment}

-- The results of the output files, or the first error.
module _ (file_stamp : BuildAlias → Outcome BuildStamp) where
  cons_result : BuildAlias → BuildStamp → Outcome (List BuildResult) → Outcome (List BuildResult)
  cons_result a s (ok results) = ok (record { alias = a; stamp = s } ∷ results)
  cons_result a s (err e) = err e

  unfoldable pub build_output_files : BuildDependencies → Outcome (List BuildResult)
  unfolding cons_result
  build_output_files [] = ok []
  build_output_files (it ∷ deps) =
      let rest = build_output_files deps in
      elim (file_stamp it.alias) [ ok s ↦ cons_result it.alias s rest | err e ↦ err e ]

-- The variables of `needToBuild_assumeLocked`, with the node that it holds locked.
pub record Check (B : Type 0) : Type 0 where
  pub node : BuildNode B
  pub rebuild : Bool
  pub last_error : Option BuildError
  -- `makeDirty`: the graph is to be saved again
  pub graph_dirty : Bool

module _ {B : Type 0} where
  -- A static dependency was updated, or failed. With the flag set, `||` does not look.
  unfoldable pub check_static :
      (debug : Bool) → Outcome (List BuildResult) → Check B → Option (Check B)
  unfolding update_build
  check_static debug (ok results) c =
      if c.rebuild
      then some c
      else Option.map (λ p. record c { node = record c.node { static = p.0 }; rebuild = p.1 })
          (update_build debug c.node.static results)
  check_static debug (err e) c =
      some (record c { rebuild = false; last_error = some (dependency c.node.alias static e) })

  -- A dynamic dependency was updated, or failed. A failure counts only if nothing was updated.
  unfoldable pub check_dynamic :
      (debug : Bool) → Outcome (List BuildResult) → Check B → Option (Check B)
  unfolding update_build
  check_dynamic debug (ok results) c =
      if c.rebuild
      then some c
      else Option.map (λ p. record c { node = record c.node { dynamic = p.0 }; rebuild = p.1 })
          (update_build debug c.node.dynamic results)
  check_dynamic debug (err e) c =
      if c.rebuild
      then some c
      else some (record c { last_error = some (dependency c.node.alias dynamic e) })

  -- An output file was updated, or is missing: then it is to be generated again.
  unfoldable pub check_outputs :
      (debug : Bool) → Outcome (List BuildResult) → Check B → Option (Check B)
  unfolding update_build
  check_outputs debug (ok results) c =
      if c.rebuild
      then some c
      else Option.map (λ p. record c { node = record c.node { output_files = p.0 }; rebuild = p.1 })
          (update_build debug c.node.output_files results)
  check_outputs debug (err e) c = some (record c { rebuild = true })

  -- The graph is dirty if anything was updated. No valid fingerprint: the node was never built, or its last build failed.
  unfoldable pub check_content : Check B → Check B
  check_content c = record c {
    rebuild = c.rebuild || not (is_valid c.node.stamp);
    graph_dirty = c.rebuild;
  }

  -- The node has no dependency that is checked: it is built every time.
  abbrev pub has_no_deps : BuildNode B → Bool
  has_no_deps node = is_empty node.static && is_empty node.dynamic && is_empty node.output_files

  abbrev pub start : BuildNode B → Bool → Check B
  start node rebuild = record {
    node = node;
    rebuild = rebuild;
    last_error = none;
    graph_dirty = false;
  }

  infixl 5 ◌>>=◌
  abbrev ◌>>=◌ : Option (Check B) → (Check B → Option (Check B)) → Option (Check B)
  none >>= f = none
  some c >>= f = f c

  -- The assertion at the end: without a rebuild the content is that of the buildable.
  content_assert : Environment B → Check B → Option (Check B)
  content_assert env c =
      if not env.debug || c.rebuild || eqb (env.fingerprint c.node.buildable) c.node.stamp.content
      then some c
      else none

  -- `none` is a panic.
  unfoldable pub need_to_build : Environment B → BuildNode B → Option (Check B)
  unfolding check_static check_dynamic check_outputs check_content content_assert build_output_files
  need_to_build env node = if has_no_deps node then some (start node true) else do
    first ← check_static env.debug env.static_results (start node false)
    second ← check_dynamic env.debug env.dynamic_results first
    third ← check_outputs env.debug (build_output_files env.file_stamp node.output_files) second
    content_assert env (check_content third)
