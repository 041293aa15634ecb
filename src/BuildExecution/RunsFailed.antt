-- ===== src/BuildExecution/RunsFailed.antt =====
-- Concrete runs of builds that fail or are interrupted, and the theorems at them.
use ppb.Prelude.{ℕ, ◌≡◌, refl, true, false, not, ◌||◌, ◌↔◌, none, some, [], ◌∷◌, arith}
use ppb.BuildNode.Dependencies.{
  aliases, alias_comparable, alias_equals, stamp_comparable, stamp_equals, validate, no_stamp,
  is_valid,
}
use ppb.Containers.Slice.{is_uniq}
use ppb.BuildNode.Links
use ppb.BuildNode.Node.{add_dynamic, add_output_file}
use ppb.BuildNode.Wellformed.{IsWellformed}
use ppb.BuildExecution.Environment.{BuildError, other, dependency, failed, ok, err, Environment}
use ppb.BuildExecution.Check.{Check, need_to_build, build_output_files}
use ppb.BuildExecution.Check.Laws.{Results, any_changed}
use ppb.BuildExecution.Execute.{Executed, Building, execute, build_node, apply_ops, opened}
use ppb.BuildExecution.Execute.Run.{apply_ops-IsWellformed}
use ppb.BuildExecution.Recover.{
  failed_builds_again, dependency_error_builds_again, abort_never_returns,
}
use ppb.BuildExecution.Samples.{source, header, object, unit, dep, node, compiles, breaks, env_with}

abbrev broken_env : Environment ℕ
broken_env = record (env_with 5) { build = breaks }

abbrev broken_run : Executed ℕ
broken_run = record {
  node = record node {
    stamp = no_stamp;
    static = record { alias = source; stamp = no_stamp } ∷ [];
    dynamic = [];
  };
  stamp = no_stamp;
  built = true;
  error = some (failed unit (other 1));
  graph_dirty = true;
  graph_abort = none;
}

execute_breaks : execute false broken_env node ≡ some broken_run
unfolding execute need_to_build build_node alias_equals stamp_equals add_dynamic
execute_breaks = refl

abbrev second_env : Environment ℕ
second_env = record (env_with 5) { dynamic_results = ok [] }

broken-Results : Results second_env broken_run.node (dep source 5 ∷ []) [] []
unfolding build_output_files aliases is_uniq
broken-Results = record {
  static_ok = refl;
  dynamic_ok = refl;
  outputs_ok = refl;
  static_fits = record { same = refl; uniq = refl };
  dynamic_fits = record { same = refl; uniq = refl };
  outputs_fit = record { same = refl; uniq = refl };
  static_valid = refl;
  dynamic_valid = refl;
  outputs_valid = refl;
}

failed_builds_again_example :
    (y : Executed ℕ) × (execute false second_env broken_run.node ≡ some y) × (y.built ≡ true)
failed_builds_again_example =
    failed_builds_again false broken_env second_env node {rs = dep source 5 ∷ []} {rd = []}
      {ro = []} {x = broken_run} execute_breaks refl (λ e. cc) refl (λ b e. omega arith) refl refl
      refl broken-Results

-- The header could not be built.
abbrev no_header : Environment ℕ
no_header = record (env_with 1) { dynamic_results = err (other 2) }

abbrev header_error : BuildError
header_error = dependency unit Links.dynamic (other 2)

abbrev header_check : Check ℕ
header_check = record {
  node = node;
  rebuild = false;
  last_error = some header_error;
  graph_dirty = false;
}

abbrev header_run : Executed ℕ
header_run = record {
  node = record node {
    static = record { alias = source; stamp = no_stamp } ∷ [];
    dynamic = record { alias = header; stamp = no_stamp } ∷ [];
  };
  stamp = no_stamp;
  built = false;
  error = some header_error;
  graph_dirty = false;
  graph_abort = none;
}

checks_no_header : need_to_build no_header node ≡ some header_check
unfolding need_to_build alias_equals stamp_equals
checks_no_header = refl

execute-no_header : execute false no_header node ≡ some header_run
unfolding execute need_to_build alias_equals stamp_equals
execute-no_header = refl

header-Results : Results (env_with 1) header_run.node (dep source 1 ∷ []) (dep header 2 ∷ []) []
unfolding build_output_files aliases is_uniq
header-Results = record {
  static_ok = refl;
  dynamic_ok = refl;
  outputs_ok = refl;
  static_fits = record { same = refl; uniq = refl };
  dynamic_fits = record { same = refl; uniq = refl };
  outputs_fit = record { same = refl; uniq = refl };
  static_valid = refl;
  dynamic_valid = refl;
  outputs_valid = refl;
}

dependency_error_builds_again_example :
    (header_run.error ≡ some header_error)
    × ((y : Executed ℕ) × (execute false (env_with 1) header_run.node ≡ some y) × (y.built ≡ true))
unfolding validate
dependency_error_builds_again_example =
    dependency_error_builds_again false no_header (env_with 1) node header_check header_error
      {rs = dep source 1 ∷ []} {rd = dep header 2 ∷ []} {ro = []} {x = header_run} checks_no_header
      refl refl execute-no_header refl (λ b e. omega arith) refl refl refl header-Results refl refl
      refl

-- The user interrupts the build.
abbrev interrupted : Environment ℕ
interrupted = record (env_with 5) { abort = some (other 3) }

interrupted-Results : Results interrupted node (dep source 5 ∷ []) (dep header 2 ∷ []) []
unfolding build_output_files aliases is_uniq
interrupted-Results = record {
  static_ok = refl;
  dynamic_ok = refl;
  outputs_ok = refl;
  static_fits = record { same = refl; uniq = refl };
  dynamic_fits = record { same = refl; uniq = refl };
  outputs_fit = record { same = refl; uniq = refl };
  static_valid = refl;
  dynamic_valid = refl;
  outputs_valid = refl;
}

abort_never_returns_example :
    ((execute false interrupted node ≡ none) ↔ (
      (any_changed interrupted node (dep source 5 ∷ []) (dep header 2 ∷ []) []
        || not (is_valid node.stamp)
        || false)
      ≡ true))
    × ((x : Executed ℕ) × (execute false (record interrupted { abort = none }) node ≡ some x))
abort_never_returns_example =
    abort_never_returns false interrupted node (other 3) refl (λ b e. omega arith) refl refl refl
      interrupted-Results

-- The source has changed, so that the node is to be built.
interrupted_rebuild : execute false interrupted node ≡ none
unfolding execute need_to_build alias_equals stamp_equals
interrupted_rebuild = refl

abbrev compile_building : Building ℕ
compile_building = record {
  node = record node { stamp = no_stamp; output_files = dep object 9 ∷ [] };
  build_time = 8;
}

apply_ops-IsWellformed_example : IsWellformed compile_building.node
unfolding apply_ops opened alias_equals add_dynamic add_output_file
apply_ops-IsWellformed_example =
    apply_ops-IsWellformed (env_with 1) node (compiles 3).ops {y = compile_building} refl
