-- ===== src/BuildNode/Wellformed.antt =====
-- The invariant that the assertions of the debug build protect: the kinds of dependency of a node
-- do not overlap, and a node does not depend on itself.
use ppb.Prelude.{ℕ, ◌+◌, ◌≤◌, ◌≡◌, refl, Bool, true, false, some, [], ◌∷◌, arith, elem}
use ppb.Containers.Slice.{is_uniq}
use ppb.Containers.SetT.{append_uniq_lem}
use ppb.BuildNode.Dependencies.{
  BuildAlias, alias_comparable, alias_equals_iff, BuildStamp, aliases, has, validate, has-add,
  is_uniq-add, validate-add,
}
use ppb.BuildNode.Node.{BuildNode, make_dirty_node, add_dynamic, add_output_file, add_output_node}

abbrev one_if : Bool → ℕ
one_if true = 1
one_if false = 0

module _ {B : Type 0} where
  -- The number of kinds under which a node records an alias.
  abbrev pub kinds : BuildNode B → BuildAlias → ℕ
  kinds node a =
      one_if (has node.static a)
      + one_if (has node.dynamic a)
      + one_if (has node.output_files a)
      + one_if (elem a node.output_nodes)

  -- No kind holds an alias twice, and the recorded stamps are valid. The release build keeps this.
  pub record IsOrdered (node : BuildNode B) : Type 0 where
    pub dynamic_uniq : is_uniq (aliases node.dynamic) ≡ true
    pub output_files_uniq : is_uniq (aliases node.output_files) ≡ true
    pub output_nodes_uniq : is_uniq node.output_nodes ≡ true

  pub record IsWellformed (node : BuildNode B) : Type 0 where
    pub ordered : IsOrdered node
    pub disjoint : (a : BuildAlias) → kinds node a ≤ 1
    pub dynamic_valid : validate node.dynamic ≡ true
    pub output_files_valid : validate node.output_files ≡ true
    pub not_itself : kinds node node.alias ≤ one_if (has node.static node.alias)

  pub make_dirty_node-IsWellformed : (node : BuildNode B) → IsWellformed (make_dirty_node node)
  unfolding make_dirty_node aliases has is_uniq validate
  make_dirty_node-IsWellformed node = record {
    ordered = ground arith;
    disjoint = λ a. ground arith;
    dynamic_valid = refl;
    output_files_valid = refl;
    not_itself = ground arith;
  }

  module _ (node : BuildNode B) (a : BuildAlias) (s : BuildStamp) {next : BuildNode B} where
    pub add_dynamic-IsWellformed :
        IsWellformed node → add_dynamic true node a s ≡ some next → IsWellformed next
    unfolding add_dynamic
    add_dynamic-IsWellformed w e = record {
      ordered = ground (arith, is_uniq-add node.dynamic a s);
      disjoint =
          λ b. ground (arith, w.disjoint b, has-add node.dynamic a s b, alias_equals_iff a b);
      dynamic_valid = ground (arith, validate-add node.dynamic a s);
      output_files_valid = ground arith;
      not_itself = ground (
        arith,
        has-add node.dynamic a s node.alias,
        alias_equals_iff a node.alias,
        alias_equals_iff node.alias a,
      );
    }

    pub add_output_file-IsWellformed :
        IsWellformed node → add_output_file true node a s ≡ some next → IsWellformed next
    unfolding add_output_file
    add_output_file-IsWellformed w e = record {
      ordered = ground (arith, is_uniq-add node.output_files a s);
      disjoint =
          λ b. ground (arith, w.disjoint b, has-add node.output_files a s b, alias_equals_iff a b);
      dynamic_valid = ground arith;
      output_files_valid = ground (arith, validate-add node.output_files a s);
      not_itself = ground (
        arith,
        has-add node.output_files a s node.alias,
        alias_equals_iff a node.alias,
        alias_equals_iff node.alias a,
      );
    }

  module _ (node : BuildNode B) (a : BuildAlias) {next : BuildNode B} where
    pub add_output_node-IsWellformed :
        IsWellformed node → add_output_node true node a ≡ some next → IsWellformed next
    unfolding add_output_node
    add_output_node-IsWellformed w e =
        let (uniq, found, _) =
          append_uniq_lem node.output_nodes (a ∷ []) w.ordered.output_nodes_uniq in
        record {
          ordered = ground (arith, uniq);
          disjoint = λ b. ground (arith, w.disjoint b, found b, alias_equals_iff a b);
          dynamic_valid = ground arith;
          output_files_valid = ground arith;
          not_itself = ground (
            arith,
            found node.alias,
            alias_equals_iff a node.alias,
            alias_equals_iff node.alias a,
          );
        }
