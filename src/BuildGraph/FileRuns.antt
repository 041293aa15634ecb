-- ===== src/BuildGraph/FileRuns.antt =====
-- Concrete searches for files. The buildable of a node is the number of its file, or 0.
use ppb.Prelude.{
  ℕ, ◌≡◌, refl, true, false, Option, none, some, List, [], ◌∷◌, if◌then◌else◌, eqb, list_comparable,
  nat_comparable,
}
use ppb.Containers.SetT.{append_uniq}
use ppb.BuildNode.Dependencies.{BuildAlias, no_stamp, aliases, alias_equals, alias_comparable}
use ppb.BuildNode.Node.{BuildNode}
use ppb.BuildExecution.Environment.{Outcome, ok}
use ppb.BuildExecution.Samples.{source, header, object, unit, dep}
use ppb.BuildGraph.Files.{
  push_new, find_node, add_file, search, search_input, output_next, input_next,
  get_dependency_output_files, get_dependency_input_files,
}
use ppb.BuildGraph.Files.Reach.{IsAnswer}
use ppb.BuildGraph.Files.Found.{output_files_lem, input_files_lem}

abbrev leaf : BuildAlias → ℕ → BuildNode ℕ
leaf a file = record {
  alias = a;
  buildable = file;
  stamp = no_stamp;
  static = [];
  dynamic = [];
  output_files = [];
  output_nodes = [];
}

abbrev file_of : ℕ → Option ℕ
file_of b = if eqb b 0 then none else some b

-- The unit reads a source, which needs a header, and writes an object.
abbrev nodes : List (BuildNode ℕ)
nodes =
    record (leaf unit 0) { static = dep source 1 ∷ []; output_files = dep object 1 ∷ [] }
    ∷ record (leaf source 11) { dynamic = dep header 1 ∷ [] }
    ∷ leaf header 12
    ∷ leaf object 13
    ∷ []

outputs_run : get_dependency_output_files nodes file_of (unit ∷ []) ≡ some (ok (13 ∷ []))
unfolding get_dependency_output_files search push_new find_node add_file append_uniq alias_equals
    aliases
outputs_run = refl

inputs_run : get_dependency_input_files true nodes file_of (unit ∷ []) ≡ some (ok (11 ∷ 12 ∷ []))
unfolding get_dependency_input_files search_input push_new find_node add_file append_uniq
    alias_equals aliases
inputs_run = refl

-- Not recursive, with one input: its own dependencies alone.
shallow_run : get_dependency_input_files false nodes file_of (unit ∷ []) ≡ some (ok (11 ∷ []))
unfolding get_dependency_input_files search_input push_new find_node add_file append_uniq
    alias_equals aliases
shallow_run = refl

-- Not recursive, with two inputs: the dependency of the second one is counted as an input and
-- followed, in the place of the first one, whose header is found for that reason alone.
second_run :
    get_dependency_input_files false nodes file_of (object ∷ unit ∷ [])
    ≡ some (ok (11 ∷ 12 ∷ 13 ∷ []))
unfolding get_dependency_input_files search_input push_new find_node add_file append_uniq
    alias_equals aliases
second_run = refl

-- In the other order the source is not followed.
first_run :
    get_dependency_input_files false nodes file_of (unit ∷ object ∷ []) ≡ some (ok (13 ∷ 11 ∷ []))
unfolding get_dependency_input_files search_input push_new find_node add_file append_uniq
    alias_equals aliases
first_run = refl

output_files_lem_example :
    (out : Outcome (List ℕ)) × (get_dependency_output_files nodes file_of (unit ∷ []) ≡ some out)
    × IsAnswer nodes file_of output_next (unit ∷ []) out
output_files_lem_example = output_files_lem nodes file_of (unit ∷ [])

input_files_lem_example :
    (out : Outcome (List ℕ)) × (get_dependency_input_files true nodes file_of (unit ∷ [])
      ≡ some out)
    × IsAnswer nodes file_of input_next (unit ∷ []) out
input_files_lem_example = input_files_lem nodes file_of (unit ∷ [])
