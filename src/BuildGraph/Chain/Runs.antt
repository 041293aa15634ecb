-- ===== src/BuildGraph/Chain/Runs.antt =====
-- Chains in concrete graphs.
use ppb.Prelude.{ℕ, ◌≡◌, refl, ap, arith, false, List, [], ◌∷◌, list_comparable, nat_comparable}
use ppb.BuildNode.Dependencies.{BuildAlias, no_stamp, alias_equals, alias_comparable}
use ppb.BuildNode.Node.{BuildNode}
use ppb.BuildExecution.Samples.{source, header, object, unit, dep}
use ppb.Containers.Slice.{is_uniq}
use ppb.BuildGraph.Chain.Answers.{Answers}
use ppb.BuildGraph.Chain.Graph.{get_dependency_chain-Answers}
use ppb.BuildNode.Links.{BuildDependencyType, root, static, BuildDependencyLink}
use ppb.BuildGraph.Chain.{
  chain, not_linked, index_panic, Visiteds, get_dependency_links, get_dependency_chain,
}

abbrev leaf : BuildAlias → BuildNode ℕ
leaf a = record {
  alias = a;
  buildable = 0;
  stamp = no_stamp;
  static = [];
  dynamic = [];
  output_files = [];
  output_nodes = [];
}

-- The unit needs a source, which reads a header; nothing needs the object.
abbrev nodes : List (BuildNode ℕ)
nodes =
    record (leaf unit) { static = dep source 1 ∷ [] }
    ∷ record (leaf source) { dynamic = dep header 1 ∷ [] }
    ∷ leaf header
    ∷ leaf object
    ∷ []

abbrev in_order : Visiteds → Visiteds
in_order m = m

abbrev link : BuildAlias → BuildDependencyType → BuildDependencyLink
link a t = record { alias = a; link = t }

-- The link from the source to the header is dynamic, and the one from the unit to the source static:
-- the chain shows the latter only, beside the source, and the former nowhere.
header_run :
    get_dependency_chain nodes in_order unit header
    ≡ chain (link header root ∷ link source static ∷ link unit root ∷ [])
unfolding get_dependency_chain alias_equals
header_run = refl

unlinked_run : get_dependency_chain nodes in_order unit object ≡ not_linked
unfolding get_dependency_chain alias_equals
unlinked_run = refl

get_dependency_chain-Answers_example :
    Answers
      (λ a. get_dependency_links nodes a false)
      unit
      header
      (get_dependency_chain nodes in_order unit header)
unfolding is_uniq alias_equals
get_dependency_chain-Answers_example =
    get_dependency_chain-Answers nodes in_order unit header refl (omega arith)
      (λ m x. (λ h. h, λ h. h)) (λ e. cc (ap (λ a. alias_equals a unit) e)) refl

-- The same alias twice, and an alias that is not in the graph.
same_run : get_dependency_chain nodes in_order unit unit ≡ index_panic
unfolding get_dependency_chain alias_equals
same_run = refl

absent_run :
    get_dependency_chain nodes in_order unit (record { domain = []; name = 9 ∷ [] }) ≡ index_panic
unfolding get_dependency_chain alias_equals
absent_run = refl
