-- ===== src/BuildGraph/Runs.antt =====
-- Concrete nodes that are created, and the theorems at concrete inputs.
use ppb.Prelude.{
  ℕ, ◌+◌, ◌≡◌, refl, true, false, not, ◌||◌, some, [], ◌∷◌, eqb, length, arith, list_comparable,
  nat_comparable,
}
use ppb.Containers.Slice.{is_uniq}
use ppb.BuildNode.Dependencies.{
  no_stamp, aliases, alias_equals, alias_comparable, stamp_of, has, make_dirty, validate,
}
use ppb.BuildNode.Node.{make_dirty_node}
use ppb.BuildExecution.Environment.{ok, Environment}
use ppb.BuildExecution.Check.{build_output_files}
use ppb.BuildExecution.Check.Laws.{Results}
use ppb.BuildExecution.Execute.{Executed, execute}
use ppb.BuildExecution.Samples.{source, header, unit, dep, node, env_with}
use ppb.BuildExecution.Options.{BuildOptions, option_build_force, no_options}
use ppb.BuildGraph.Create.{
  Created, old_stamp, new_static, fingerprints_differ, is_dirty, overwrite, update_node, create,
}
use ppb.BuildGraph.Create.Laws.{lacks_some, create_lem, created_dirty_builds}
use ppb.BuildGraph.Create.Same.{create_same}

abbrev forced : BuildOptions
forced = option_build_force no_options

create_lem_example :
    (x : Created ℕ) × (create (λ b. b + 1) forced (some node) unit 3 (source ∷ header ∷ [])
      ≡ some x)
    × (x.graph_dirty ≡ (
        not (eqb (length (source ∷ header ∷ [])) (length node.static))
        || lacks_some node.static (source ∷ header ∷ [])
        || false
        || not (eqb (3 + 1) (node.buildable + 1))))
    × (aliases x.node.static ≡ source ∷ header ∷ [])
    × (x.node.buildable ≡ 3)
    × (x.node.stamp ≡ node.stamp)
create_lem_example =
    create_lem (λ b. b + 1) forced node unit 3 (source ∷ header ∷ []) (λ b e. omega arith) refl

create_same_example :
    create (λ b. b + 1) forced (some node) unit 3 (source ∷ [])
    ≡ some (record { node = record node { buildable = 3 }; graph_dirty = false })
unfolding aliases is_uniq
create_same_example =
    create_same (λ b. b + 1) forced node unit 3 refl refl refl refl (λ e. omega arith)

-- The unit with a header as static dependency too: everything is forgotten but its stamp.
abbrev changed : Created ℕ
changed = record {
  node = record node {
    static =
        record { alias = source; stamp = no_stamp }
        ∷ record { alias = header; stamp = no_stamp }
        ∷ [];
    dynamic = [];
  };
  graph_dirty = true;
}

create_changes :
    create (env_with 5).fingerprint forced (some node) unit 3 (source ∷ header ∷ []) ≡ some changed
unfolding create update_node new_static old_stamp is_dirty overwrite fingerprints_differ stamp_of
    has alias_equals make_dirty make_dirty_node
create_changes = refl

abbrev env_both : Environment ℕ
env_both = record (env_with 5) {
  prepared = ok (dep source 5 ∷ dep header 2 ∷ []);
  static_results = ok (dep source 5 ∷ dep header 2 ∷ []);
  dynamic_results = ok [];
}

changed-Results : Results env_both changed.node (dep source 5 ∷ dep header 2 ∷ []) [] []
unfolding build_output_files aliases is_uniq alias_equals
changed-Results = record {
  static_ok = refl;
  dynamic_ok = refl;
  outputs_ok = refl;
  static_fits = record { same = refl; uniq = refl };
  dynamic_fits = record { same = refl; uniq = refl };
  outputs_fit = record { same = refl; uniq = refl };
  static_valid = refl;
  dynamic_valid = refl;
  outputs_valid = refl;
}

created_dirty_builds_example :
    (y : Executed ℕ) × (execute false env_both changed.node ≡ some y) × (y.built ≡ true)
unfolding validate
created_dirty_builds_example =
    created_dirty_builds forced (some node) unit 3 (source ∷ header ∷ []) changed env_both
      {rs = dep source 5 ∷ dep header 2 ∷ []} {rd = []} {ro = []} create_changes refl refl refl
      (λ b e. omega arith) refl refl changed-Results refl
