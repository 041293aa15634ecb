-- ===== src/BuildExecution/Settled.antt =====
-- After a successful build the node is up to date.
use ppb.Prelude.{
  ◌≡◌, refl, ap, Bool, true, false, Option, none, some, List, arith, Option-cases, inl, inr,
}
use ppb.Containers.Slice.{is_uniq}
use ppb.BuildNode.Dependencies.{
  alias_comparable, BuildStamp, is_valid, BuildDependencies, BuildResult, aliases,
}
use ppb.BuildNode.Dependencies.Update.{differs_refl}
use ppb.BuildNode.Node.{BuildNode}
use ppb.BuildNode.Wellformed.{IsOrdered}
use ppb.BuildExecution.Environment.{BuildError, ok, Environment}
use ppb.BuildExecution.Check.{Check, has_no_deps, need_to_build, build_output_files}
use ppb.BuildExecution.Check.Laws.{Results, need_to_build-static}
use ppb.BuildExecution.Execute.{
  Executed, Building, not_built, execute, build_node, after_check, apply_ops, finish, opened,
}
use ppb.BuildExecution.Execute.Run.{apply_ops-Keeps, apply_ops-IsOrdered}
use ppb.BuildExecution.UpToDate.{execute_up_to_date}

module _ {B : Type 0} where
  -- What a successful build leaves.
  pub record IsSettled (static : BuildDependencies) (node : BuildNode B) : Type 0 where
    pub static_kept : node.static ≡ static
    pub stamped : is_valid node.stamp ≡ true
    pub ordered : IsOrdered node

  finish-IsSettled :
      (env : Environment B) (previous : BuildStamp) (dirty : Bool) (e : Option BuildError)
      (y : Building B) {x : Executed B}
      → finish env previous dirty e y ≡ some x
      → x.error ≡ none
      → IsOrdered y.node
      → IsSettled y.node.static x.node
  unfolding finish
  finish-IsSettled env previous dirty none y h ne o = ground arith
  finish-IsSettled env previous dirty (some e) y h ne o = ground arith

  opened-IsOrdered : (env : Environment B) (node : BuildNode B) → IsOrdered (opened env node).node
  unfolding opened aliases is_uniq
  opened-IsOrdered env node = ground arith

  static-opened :
      (env : Environment B) (node : BuildNode B) → (opened env node).node.static ≡ node.static
  unfolding opened
  static-opened env node = refl

  build_node-IsSettled :
      (env : Environment B) (previous : BuildStamp) (c : Check B) (x : Executed B)
      → build_node env previous c ≡ some x
      → x.error ≡ none
      → IsSettled c.node.static x.node
  unfolding build_node
  build_node-IsSettled env previous c x h ne =
      let run = env.build c.node.buildable in
      elim (Option-cases (apply_ops env.debug (opened env c.node) run.ops)) [
        | inl stopped ↦ absurd (ground arith)
        | inr (y, ran) ↦
            let kept = apply_ops-Keeps env.debug (opened env c.node) run.ops ran in
            let ordered =
              apply_ops-IsOrdered env.debug (opened env c.node) run.ops
                (opened-IsOrdered env c.node) ran in
            ground (
              arith,
              ran,
              kept.static,
              static-opened env c.node,
              finish-IsSettled env previous c.graph_dirty run.error y,
              ordered,
            )
      ]

  pub after_check-built :
      (force : Bool) (env : Environment B) (previous : BuildStamp) (c : Check B) (x : Executed B)
      → after_check force env previous c ≡ some x
      → x.built ≡ true
      → build_node env previous c ≡ some x
  unfolding after_check
  after_check-built force env previous c x h b = ground arith

  execute-IsSettled :
      (force : Bool) (env : Environment B) (node : BuildNode B) {rs rd ro : List BuildResult}
      {x : Executed B}
      → (env.debug ≡ true → env.fingerprint node.buildable ≡ node.stamp.content)
      → env.prepared ≡ ok rs
      → Results env node rs rd ro
      → execute force env node ≡ some x
      → x.built ≡ true
      → x.error ≡ none
      → IsSettled rs x.node
  unfolding execute
  execute-IsSettled force env node {rs} {x = x} sound p r h b ne =
      elim (Option-cases (need_to_build env node)) [
        | inl stopped ↦ absurd (ground arith)
        | inr (c, checked) ↦
            let (same, _) = need_to_build-static env node r sound checked in
            let built =
              after_check-built force env node.stamp c x (rw (p, checked, execute) at h) b in
            rw same at (build_node-IsSettled env node.stamp c x built ne)
      ]

  -- After a run that built the node without an error, from static, dynamic and output results that
  -- succeed, each recorded once (in a debug build with valid stamps, and with the fingerprint of the
  -- buildable): if the node that is left has dependencies, then a run that is not forced, in a release
  -- build, with the static results of the first run, and with the dynamic dependencies and output files
  -- as the build recorded them, does not build, leaves the node as it is and returns its stamp.
  pub build_settles :
      (force : Bool) (env env' : Environment B) (node : BuildNode B) {rs rd ro : List BuildResult}
      {x : Executed B}
      → (env.debug ≡ true → env.fingerprint node.buildable ≡ node.stamp.content)
      → env.prepared ≡ ok rs
      → Results env node rs rd ro
      → execute force env node ≡ some x
      → x.built ≡ true
      → x.error ≡ none
      → has_no_deps x.node ≡ false
      → env'.debug ≡ false
      → env'.prepared ≡ ok rs
      → env'.static_results ≡ ok rs
      → env'.dynamic_results ≡ ok x.node.dynamic
      → build_output_files env'.file_stamp x.node.output_files ≡ ok x.node.output_files
      → execute false env' x.node ≡ some (not_built x.node x.node.stamp none false)
  build_settles force env env' node {rs} {x = x} sound p r h b ne deps d p' s' d' o' =
      let settled = execute-IsSettled force env node sound p r h b ne in
      execute_up_to_date env' x.node deps p'
        (record {
          static_ok = s';
          dynamic_ok = d';
          outputs_ok = o';
          static_fits = record {
            same = ap aliases settled.static_kept;
            uniq = rw (settled.static_kept, ← r.static_fits.same) r.static_fits.uniq;
          };
          dynamic_fits = record { same = refl; uniq = settled.ordered.dynamic_uniq };
          outputs_fit = record { same = refl; uniq = settled.ordered.output_files_uniq };
          static_valid = ground (arith, d');
          dynamic_valid = ground (arith, d');
          outputs_valid = ground (arith, d');
        })
        (λ t. cc)
        (ground (
          arith,
          settled.static_kept,
          differs_refl x.node.static,
          differs_refl x.node.dynamic,
          differs_refl x.node.output_files,
        ))
        settled.stamped
