-- ===== src/BuildExecution/Runs.antt =====
-- Concrete runs of a build that succeeds, and the theorems at them.
use ppb.Prelude.{
  ℕ, ◌*◌, ◌↔◌, eqb, if◌then◌else◌, Option, ◌≡◌, refl, true, false, ◌||◌, not, none, some, [], ◌∷◌,
  arith,
}
use ppb.BuildNode.Dependencies.{
  alias_comparable, alias_equals, stamp_comparable, stamp_equals, is_valid,
}
use ppb.BuildNode.Node.{BuildNode, add_dynamic, add_output_file}
use ppb.BuildExecution.Check.{need_to_build, build_output_files}
use ppb.BuildExecution.Check.Laws.{any_changed}
use ppb.BuildExecution.Execute.{Executed, not_built, execute, build_node, build_status, was_updated}
use ppb.BuildExecution.UpToDate.{execute_up_to_date, execute_minimal}
use ppb.BuildExecution.Settled.{build_settles}
use ppb.BuildExecution.Options.{
  BuildOptions, no_options, option_build_force, option_build_force_recursive, recurse, recurse_all,
}
use ppb.Futures.{Got, value, failed, parallel_join}
use ppb.BuildExecution.Many.{first_missing, futures_from, build_many, all_built, build_many_lem}
use ppb.BuildExecution.Samples.{unit, source, header, object, dep, node, env_with, Results-with}

execute_up_to_date_example :
    execute false (env_with 1) node ≡ some (not_built node node.stamp none false)
unfolding alias_equals stamp_equals
execute_up_to_date_example =
    execute_up_to_date (env_with 1) node {rs = dep source 1 ∷ []} {rd = dep header 2 ∷ []} {ro = []}
      refl refl (Results-with 1) (λ t. cc) refl refl

execute_minimal_example :
    (x : Executed ℕ) × (execute false (env_with 5) node ≡ some x)
    × (x.built ≡ (
        any_changed (env_with 5) node (dep source 5 ∷ []) (dep header 2 ∷ []) []
        || not (is_valid node.stamp)
        || false))
execute_minimal_example =
    execute_minimal (env_with 5) node {rs = dep source 5 ∷ []} {rd = dep header 2 ∷ []} {ro = []}
      false refl (λ b e. omega arith) refl refl refl (Results-with 5)

-- The node after it was compiled from version 5.
abbrev compiled : BuildNode ℕ
compiled = record node {
  stamp = record { mod_time = 8; content = 4 };
  static = dep source 5 ∷ [];
  output_files = dep object 9 ∷ [];
}

abbrev compile_run : Executed ℕ
compile_run = record {
  node = compiled;
  stamp = compiled.stamp;
  built = true;
  error = none;
  graph_dirty = true;
  graph_abort = none;
}

execute_compiles : execute false (env_with 5) node ≡ some compile_run
unfolding execute need_to_build build_node alias_equals stamp_equals add_dynamic add_output_file
execute_compiles = refl

compile_updates : was_updated (build_status node compile_run) ≡ true
unfolding was_updated build_status stamp_equals
compile_updates = refl

build_settles_example :
    execute false (env_with 5) compiled ≡ some (not_built compiled compiled.stamp none false)
unfolding build_output_files
build_settles_example =
    build_settles false (env_with 5) (env_with 5) node {rs = dep source 5 ∷ []}
      {rd = dep header 2 ∷ []} {ro = []} {x = compile_run} (λ t. cc) refl (Results-with 5)
      execute_compiles refl refl refl refl refl refl refl refl

-- A forced and recursive build asks the header of the source of the unit to be built, by force.
abbrev recursive : BuildOptions
recursive = option_build_force_recursive no_options

recurse_run :
    recurse_all true recursive (unit ∷ source ∷ [])
    ≡ some (record recursive { caller = some source })
unfolding recurse_all recurse alias_equals
recurse_run = refl

-- Forced alone, it does not.
shallow_run :
    recurse_all true (option_build_force no_options) (unit ∷ source ∷ [])
    ≡ some (record no_options { caller = some source })
unfolding recurse_all recurse alias_equals
shallow_run = refl

-- Nodes are numbers; 3 is not found, the build of 4 fails, and a result is ten times its node.
abbrev found : ℕ → Got ℕ ℕ
found i = if eqb i 3 then failed 1 else value i

abbrev built : ℕ → Got ℕ ℕ
built node = if eqb node 4 then failed 2 else value (10 * node)

abbrev taken : ℕ → ℕ → Option ℕ
taken i r = none

many_run : build_many found built taken 3 ≡ ((0, 0) ∷ (1, 10) ∷ (2, 20) ∷ [], none)
unfolding build_many
many_run = refl

many_not_found : build_many found built taken 5 ≡ ([], some 1)
unfolding build_many
many_not_found = refl

build_many_lem_example :
    (build_many found built taken 3 ≡ (elim (first_missing found built taken 0 3) [
      | some e ↦ ([], some e)
      | none ↦ parallel_join taken 0 none (futures_from found built taken 0 3)
    ]))
    × (((build_many found built taken 3).1 ≡ none) ↔ (all_built found built taken 0 3 ≡ true))
build_many_lem_example = build_many_lem found built taken 3
