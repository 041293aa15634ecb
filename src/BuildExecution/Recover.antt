-- ===== src/BuildExecution/Recover.antt =====
-- What is left after a build that did not succeed: whether the next run builds the node.
use ppb.Prelude.{
  ◌≡◌, ◌≢◌, refl, Bool, true, false, not, Option, none, some, List, arith, Option-cases, inl, inr,
  ◌⊎◌, ◌↔◌, ◌||◌,
}
use ppb.BuildNode.Dependencies.{
  alias_comparable, BuildStamp, is_valid, no_stamp, BuildResult, validate, is_empty-make_dirty,
}
use ppb.BuildNode.Dependencies.Update.{differs-make_dirty}
use ppb.BuildNode.Node.{BuildNode}
use ppb.BuildExecution.Environment.{BuildError, Outcome, ok, err, Environment}
use ppb.BuildExecution.Check.{Check, has_no_deps, need_to_build}
use ppb.BuildExecution.Check.Laws.{Results, need_to_build_lem, any_changed, checked}
use ppb.BuildExecution.Execute.{
  Executed, Building, execute, build_node, apply_ops, finish, opened, forget,
}
use ppb.BuildExecution.Execute.Run.{apply_ops-Keeps}
use ppb.BuildExecution.Settled.{after_check-built}
use ppb.BuildExecution.UpToDate.{execute_minimal}

Outcome-cases :
    {A : Type 0} (o : Outcome A) → ((a : A) × (o ≡ ok a)) ⊎ ((e : BuildError) × (o ≡ err e))
Outcome-cases (ok a) = inl (a, refl)
Outcome-cases (err e) = inr (e, refl)

module _ {B : Type 0} where
  -- After a failed body the node has no valid fingerprint.
  finish-fail :
      (env : Environment B) (previous : BuildStamp) (dirty : Bool) (e : Option BuildError)
      (y : Building B) (x : Executed B)
      → finish env previous dirty e y ≡ some x
      → x.error ≢ none
      → y.node.stamp ≡ no_stamp
      → is_valid x.node.stamp ≡ false
  unfolding finish
  finish-fail env previous dirty none y x h ne s = absurd (ground arith)
  finish-fail env previous dirty (some e) y x h ne s = ground arith

  build_node-fail :
      (env : Environment B) (previous : BuildStamp) (c : Check B) (x : Executed B)
      → build_node env previous c ≡ some x
      → x.error ≢ none
      → is_valid x.node.stamp ≡ false
  unfolding build_node
  build_node-fail env previous c x h ne =
      let run = env.build c.node.buildable in
      elim (Option-cases (apply_ops env.debug (opened env c.node) run.ops)) [
        | inl stopped ↦ absurd (ground arith)
        | inr (y, ran) ↦ ground (
          arith,
          ran,
          (apply_ops-Keeps env.debug (opened env c.node) run.ops ran).stamp,
          finish-fail env previous c.graph_dirty run.error y x,
        )
      ]

  execute-fail :
      (force : Bool) (env : Environment B) (node : BuildNode B) (x : Executed B)
      → execute force env node ≡ some x
      → x.built ≡ true
      → x.error ≢ none
      → is_valid x.node.stamp ≡ false
  unfolding execute
  execute-fail force env node x h b ne = elim (Outcome-cases env.prepared) [
    | inr (e, p) ↦ absurd (ground arith)
    | inl (rs, p) ↦ elim (Option-cases (need_to_build env node)) [
      | inl stopped ↦ absurd (ground arith)
      | inr (c, seen) ↦
          build_node-fail env node.stamp c x
            (after_check-built force env node.stamp c x (rw (p, seen, execute) at h) b) ne
    ]
  ]

  -- A build that was started and failed is started again by the next run, and that run returns, in a
  -- release build without an abort whose fingerprints are never empty, if the node that is left has
  -- dependencies, and all of them succeed then, each recorded once; whatever their stamps are.
  pub failed_builds_again :
      (force : Bool) (env env' : Environment B) (node : BuildNode B) {rs rd ro : List BuildResult}
      {x : Executed B}
      → execute force env node ≡ some x
      → x.built ≡ true
      → x.error ≢ none
      → env'.debug ≡ false
      → ((b : B) → env'.fingerprint b ≢ 0)
      → env'.abort ≡ none
      → has_no_deps x.node ≡ false
      → env'.prepared ≡ ok rs
      → Results env' x.node rs rd ro
      → (y : Executed B) × (execute false env' x.node ≡ some y) × (y.built ≡ true)
  failed_builds_again force env env' node {x = x} h b ne d f a deps p r =
      let (y, e, minimal) = execute_minimal env' x.node false d f a deps p r in
      (y, e, ground (arith, minimal, execute-fail force env node x h b ne))

  execute-forget :
      (force : Bool) (env : Environment B) (node : BuildNode B) (c : Check B) (e : BuildError)
      {rs : List BuildResult} (x : Executed B)
      → need_to_build env node ≡ some c
      → c.last_error ≡ some e
      → env.prepared ≡ ok rs
      → execute force env node ≡ some x
      → (x.node ≡ forget c.node) × (x.error ≡ some e)
  unfolding execute
  execute-forget force env node c e x seen bad p h = ground (arith, seen)

  -- An emptied stamp counts as a change.
  any_changed-forget :
      (env : Environment B) (node : BuildNode B) {rs rd ro : List BuildResult}
      → Results env (forget node) rs rd ro
      → validate rs ≡ true
      → validate rd ≡ true
      → validate ro ≡ true
      → any_changed env (forget node) rs rd ro ≡ not (has_no_deps (forget node))
  unfolding forget
  any_changed-forget env node {rs} {rd} {ro} r vs vd vo = ground (
    arith,
    differs-make_dirty node.static rs r.static_fits.same,
    differs-make_dirty node.dynamic rd r.dynamic_fits.same,
    differs-make_dirty node.output_files ro r.outputs_fit.same,
    is_empty-make_dirty node.static,
    is_empty-make_dirty node.dynamic,
    is_empty-make_dirty node.output_files,
  )

  -- Where `Execute` returned after the check of its dependencies failed, it has returned that error; and
  -- the next run builds the node, in a release build without an abort whose fingerprints are never
  -- empty, if the node that is left has dependencies, and all of them succeed then, each recorded once
  -- and with a valid stamp.
  pub dependency_error_builds_again :
      (force : Bool) (env env' : Environment B) (node : BuildNode B) (c : Check B) (e : BuildError)
      {failed rs rd ro : List BuildResult} {x : Executed B}
      → need_to_build env node ≡ some c
      → c.last_error ≡ some e
      → env.prepared ≡ ok failed
      → execute force env node ≡ some x
      → env'.debug ≡ false
      → ((b : B) → env'.fingerprint b ≢ 0)
      → env'.abort ≡ none
      → has_no_deps x.node ≡ false
      → env'.prepared ≡ ok rs
      → Results env' x.node rs rd ro
      → validate rs ≡ true
      → validate rd ≡ true
      → validate ro ≡ true
      → (x.error ≡ some e)
        × ((y : Executed B) × (execute false env' x.node ≡ some y) × (y.built ≡ true))
  dependency_error_builds_again force env env' node c e {rs = rs} {rd} {ro} {x} seen bad p h d f a
        deps p' r vs vd vo =
      let (left, error) = execute-forget force env node c e x seen bad p h in
      let (y, ran, minimal) = execute_minimal env' x.node false d f a deps p' r in
      let changed = any_changed-forget env' c.node (rw left at r) vs vd vo in
      (error, (y, ran, ground (arith, minimal, left, changed)))

  -- In a release build whose fingerprints are never empty, for a node that has dependencies, all of
  -- which succeed, each recorded once: after an abort, `Execute` does not return exactly when the node is
  -- to be built, that is when some stamp of the dependencies has changed, or the node has no valid
  -- fingerprint, or the build is forced; but it returns when all is the same without the abort.
  pub abort_never_returns :
      (force : Bool) (env : Environment B) (node : BuildNode B) (e : BuildError)
      {rs rd ro : List BuildResult}
      → env.debug ≡ false
      → ((b : B) → env.fingerprint b ≢ 0)
      → env.abort ≡ some e
      → has_no_deps node ≡ false
      → env.prepared ≡ ok rs
      → Results env node rs rd ro
      → ((execute force env node ≡ none)
          ↔ ((any_changed env node rs rd ro || not (is_valid node.stamp) || force) ≡ true))
        × ((x : Executed B) × (execute force (record env { abort = none }) node ≡ some x))
  unfolding execute
  abort_never_returns force env node e {rs} {rd} {ro} d f a deps p r =
      let c = checked env node rs rd ro in
      let seen = need_to_build_lem env node deps r (λ (t : env.debug ≡ true). cc) in
      let (x, ran, _) =
        execute_minimal (record env { abort = none }) node force d f refl deps p
          (record {
            static_ok = r.static_ok;
            dynamic_ok = r.dynamic_ok;
            outputs_ok = r.outputs_ok;
            static_fits = r.static_fits;
            dynamic_fits = r.dynamic_fits;
            outputs_fit = r.outputs_fit;
            static_valid = r.static_valid;
            dynamic_valid = r.dynamic_valid;
            outputs_valid = r.outputs_valid;
          }) in
      ((λ h. ground arith, λ h. ground arith), (x, ran))
