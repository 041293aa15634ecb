-- ===== src/BuildExecution/UpToDate.antt =====
-- Minimal rebuilds: when `Execute` builds, and that it does not build twice.
use ppb.Prelude.{
  ◌≡◌, ◌≢◌, refl, Bool, true, false, ◌||◌, not, Option, none, some, List, arith, Bool-cases, inl,
  inr,
}
use ppb.BuildNode.Dependencies.{alias_comparable, BuildStamp, is_valid, BuildResult}
use ppb.BuildNode.Dependencies.Update.{differs-eq}
use ppb.BuildNode.Node.{BuildNode}
use ppb.BuildExecution.Environment.{BuildError, ok, Environment}
use ppb.BuildExecution.Check.{Check, has_no_deps}
use ppb.BuildExecution.Check.Laws.{Results, any_changed, checked, need_to_build_lem}
use ppb.BuildExecution.Execute.{
  Executed, Building, not_built, execute, build_node, finish, succeeded, opened, fail,
}
use ppb.BuildExecution.Execute.Run.{apply_ops_returns}

module _ {B : Type 0} where
  finish_returns :
      (env : Environment B) (previous : BuildStamp) (dirty : Bool) (e : Option BuildError)
      (x : Building B)
      → env.debug ≡ false
      → env.fingerprint x.node.buildable ≢ 0
      → (y : Executed B) × (finish env previous dirty e x ≡ some y) × (y.built ≡ true)
  unfolding finish
  finish_returns env previous dirty none x d f =
      (succeeded env previous dirty x, ground arith, refl)
  finish_returns env previous dirty (some e) x d f = (fail env dirty e x, refl, refl)

  -- In a release build whose fingerprints are never empty, a build returns.
  build_node_returns :
      (env : Environment B) (previous : BuildStamp) (c : Check B)
      → env.debug ≡ false
      → ((b : B) → env.fingerprint b ≢ 0)
      → (x : Executed B) × (build_node env previous c ≡ some x) × (x.built ≡ true)
  unfolding build_node
  build_node_returns env previous c d f =
      let run = env.build c.node.buildable in
      let (x, ran) = apply_ops_returns env.debug (opened env c.node) run.ops d in
      let (y, e, b) =
        finish_returns env previous c.graph_dirty run.error x d (f x.node.buildable) in
      (y, ground (arith, ran, e), b)

  module _ (env : Environment B) (node : BuildNode B) {rs rd ro : List BuildResult} where
    -- A node that has dependencies, all of which succeed, each recorded once, with stamps that have not
    -- changed, and that has a valid fingerprint, is not built by a run that is not forced: it is left as
    -- it is, and its stamp is the result. In a debug build this holds if the stamps of the dependencies
    -- are valid, and the fingerprint of the node is that of its buildable.
    pub execute_up_to_date :
        has_no_deps node ≡ false
        → env.prepared ≡ ok rs
        → Results env node rs rd ro
        → (env.debug ≡ true → env.fingerprint node.buildable ≡ node.stamp.content)
        → any_changed env node rs rd ro ≡ false
        → is_valid node.stamp ≡ true
        → execute false env node ≡ some (not_built node node.stamp none false)
    unfolding execute
    execute_up_to_date h p r sound same v = ground (
      arith,
      need_to_build_lem env node h r sound,
      differs-eq node.static rs r.static_fits.same,
      differs-eq node.dynamic rd r.dynamic_fits.same,
      differs-eq node.output_files ro r.outputs_fit.same,
    )

    -- In a release build without an abort whose fingerprints are never empty, `Execute` of a node that has
    -- dependencies, all of which succeed, each recorded once, returns, and has built the node exactly
    -- when some stamp of them has changed, or the node has no valid fingerprint, or the run is forced.
    pub execute_minimal :
        (force : Bool)
        → env.debug ≡ false
        → ((b : B) → env.fingerprint b ≢ 0)
        → env.abort ≡ none
        → has_no_deps node ≡ false
        → env.prepared ≡ ok rs
        → Results env node rs rd ro
        → (x : Executed B) × (execute force env node ≡ some x)
          × (x.built ≡ (any_changed env node rs rd ro || not (is_valid node.stamp) || force))
    unfolding execute
    execute_minimal force d f a h p r =
        let c = checked env node rs rd ro in
        let e = need_to_build_lem env node h r (λ (t : env.debug ≡ true). cc) in
        let (x, built, is_built) = build_node_returns env node.stamp c d f in
        elim (Bool-cases (c.rebuild || force)) [
          | inl rebuild ↦ (x, ground (arith, built), ground (arith, is_built))
          | inr skip ↦
              (not_built c.node c.node.stamp none c.graph_dirty, ground arith, ground arith)
        ]
