-- ===== src/BuildExecution/Execute.antt =====
-- `buildExecuteContext.Execute` of utils/BuildExecution.go, and the status that `launchBuild` gives
-- its result.
pub mod Run
use ppb.Prelude.{
  assertion, ℕ, ◌≡◌, refl, Bool, true, false, ◌&&◌, ◌||◌, not, Option, none, some, List, [], ◌∷◌,
  arith, if◌then◌else◌, eqb, ◌==◌,
}
use mathlib.Core.Option
use ppb.BuildNode.Dependencies.{
  BuildAlias, BuildStamp, stamp_comparable, no_stamp, is_valid, BuildResult, validate, make_dirty,
}
use ppb.BuildNode.Links.{static}
use ppb.BuildNode.Node.{BuildNode, make_dirty_node, add_dynamic, add_output_file, add_output_node}
use ppb.BuildExecution.Environment.{
  BuildError, failed, dependency, Outcome, ok, err, BuildOp, need, output_file, output_node,
  timestamp, BuildRun, Environment,
}
use ppb.BuildExecution.Check.{Check, need_to_build}

-- What `Execute` leaves: the node, its stamp in the result, whether it was built, its error, and
-- what it did to the graph.
pub record Executed (B : Type 0) : Type 0 where
  pub node : BuildNode B
  pub stamp : BuildStamp
  pub built : Bool
  pub error : Option BuildError
  pub graph_dirty : Bool
  pub graph_abort : Option BuildError

-- The node under `Build`, and the timestamp of the annotations.
pub record Building (B : Type 0) : Type 0 where
  pub node : BuildNode B
  pub build_time : ℕ

module _ {B : Type 0} where
  -- One call of the body on its context.
  unfoldable pub apply_op : Bool → Building B → BuildOp → Option (Building B)
  apply_op debug x (need r) =
      Option.map (λ n. record x { node = n }) (add_dynamic debug x.node r.alias r.stamp)
  apply_op debug x (output_file r) =
      Option.map (λ n. record x { node = n }) (add_output_file debug x.node r.alias r.stamp)
  apply_op debug x (output_node a) =
      Option.map (λ n. record x { node = n }) (add_output_node debug x.node a)
  apply_op debug x (timestamp t) = some (record x { build_time = t })

  unfoldable pub apply_ops : Bool → Building B → List BuildOp → Option (Building B)
  unfolding apply_op
  apply_ops debug x [] = some x
  apply_ops debug x (op ∷ ops) = elim (apply_op debug x op) [
    | none ↦ none
    | some x' ↦ apply_ops debug x' ops
  ]

  -- A return without a build.
  abbrev pub not_built : BuildNode B → BuildStamp → Option BuildError → Bool → Executed B
  not_built node stamp error dirty = record {
    node = node;
    stamp = stamp;
    built = false;
    error = error;
    graph_dirty = dirty;
    graph_abort = none;
  }

  -- A check failed: every kind of dependency is emptied, so that the node is built again.
  unfoldable pub forget : BuildNode B → BuildNode B
  unfolding make_dirty
  forget node = record node {
    static = make_dirty node.static;
    dynamic = make_dirty node.dynamic;
    output_files = make_dirty node.output_files;
  }

  -- The node after a successful build, and its result: the stamp has the time of the annotations,
  -- and the fingerprint of the buildable.
  abbrev pub built_stamp : Environment B → Building B → BuildStamp
  built_stamp env x = record { mod_time = x.build_time; content = env.fingerprint x.node.buildable }

  abbrev pub succeeded : Environment B → BuildStamp → Bool → Building B → Executed B
  succeeded env previous dirty x = record {
    node = record x.node { stamp = built_stamp env x };
    stamp = built_stamp env x;
    built = true;
    error = none;
    graph_dirty = dirty || not (previous == built_stamp env x);
    graph_abort = none;
  }

  -- The end of a successful build. `none` is a failed assertion, or the panic of
  -- `MakeBuildFingerprint` on an empty fingerprint.
  unfoldable pub succeed : Environment B → BuildStamp → Bool → Building B → Option (Executed B)
  unfolding validate
  succeed env previous dirty x =
      if is_valid (built_stamp env x)
        && (not env.debug || validate x.node.dynamic && validate x.node.output_files)
      then some (succeeded env previous dirty x)
      else none

  -- The end of a failed build: nothing of it is kept, and the static stamps are emptied.
  unfoldable pub fail : Environment B → Bool → BuildError → Building B → Executed B
  unfolding make_dirty_node make_dirty
  fail env dirty e x =
      let node = make_dirty_node x.node in
      let wrapped = failed node.alias e in
      record {
        node = record node { static = make_dirty node.static };
        stamp = no_stamp;
        built = true;
        error = some wrapped;
        graph_dirty = dirty;
        graph_abort = if env.stop_on_error then some wrapped else none;
      }

  unfoldable pub finish :
      Environment B → BuildStamp → Bool → Option BuildError → Building B → Option (Executed B)
  unfolding succeed fail
  finish env previous dirty none x = succeed env previous dirty x
  finish env previous dirty (some e) x = some (fail env dirty e x)

  -- The node when its body starts: all but the static dependencies is forgotten, with the stamp. The
  -- buildable is what the body makes of it.
  unfoldable pub opened : Environment B → BuildNode B → Building B
  unfolding make_dirty_node
  opened env node = record {
    node = record (make_dirty_node node) {
      stamp = no_stamp;
      buildable = (env.build node.buildable).buildable;
    };
    build_time = env.build_time;
  }

  -- The build of a node that was checked.
  unfoldable pub build_node : Environment B → BuildStamp → Check B → Option (Executed B)
  unfolding opened apply_ops finish validate
  build_node env previous c =
      let run = env.build c.node.buildable in
      if assertion env.debug (validate c.node.static)
      then elim (apply_ops env.debug (opened env c.node) run.ops) [
        | none ↦ none
        | some x ↦ finish env previous c.graph_dirty run.error x
      ]
      else none

  -- After an abort it does not return: `GetBuildable` read-locks the node, which the goroutine has
  -- locked for writing, so that the goroutine waits for itself.
  unfoldable pub after_check : Bool → Environment B → BuildStamp → Check B → Option (Executed B)
  unfolding forget
  after_check force env previous c = elim c.last_error [
    | some e ↦ some (not_built (forget c.node) no_stamp (some e) c.graph_dirty)
    | none ↦ elim (c.rebuild || force) [
      | false ↦ some (not_built c.node c.node.stamp none c.graph_dirty)
      | true ↦ elim env.abort [ some e ↦ none | none ↦ build_node env previous c ]
    ]
  ]

  -- `none` is a panic, or that it does not return.
  unfoldable pub execute : Bool → Environment B → BuildNode B → Option (Executed B)
  unfolding after_check
  execute force env node = elim env.prepared [
    | err e ↦ some (not_built node no_stamp (some (dependency node.alias static e)) false)
    | ok _ ↦ elim (need_to_build env node) [
      | none ↦ none
      | some c ↦ after_check force env node.stamp c
    ]
  ]

pub data BuildStatus : Type 0 where
  unbuilt built updated up_to_date : BuildStatus

-- The status of a result without error: `BUILDSTATUS_UPDATED` if the stamp differs from the one
-- that the node had before.
unfoldable pub build_status : {B : Type 0} → BuildNode B → Executed B → BuildStatus
build_status node x =
    if x.built then (if x.stamp == node.stamp then built else updated) else up_to_date

-- `WasUpdated`
unfoldable pub was_updated : BuildStatus → Bool
was_updated updated = true
was_updated unbuilt = false
was_updated built = false
was_updated up_to_date = false
