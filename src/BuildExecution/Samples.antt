-- ===== src/BuildExecution/Samples.antt =====
-- A unit with a source, a header and an object, and what surrounds its builds.
use ppb.Prelude.{ℕ, ◌+◌, refl, false, none, some, [], ◌∷◌}
use ppb.BuildNode.Dependencies.{
  BuildAlias, BuildStamp, BuildDependency, aliases, alias_comparable, stamp_comparable,
}
use ppb.Containers.Slice.{is_uniq}
use ppb.BuildNode.Node.{BuildNode}
use ppb.BuildExecution.Environment.{other, ok, need, output_file, BuildRun, Environment}
use ppb.BuildExecution.Check.{build_output_files}
use ppb.BuildExecution.Check.Laws.{Results}

abbrev pub source : BuildAlias
source = record { domain = 102 ∷ 105 ∷ 108 ∷ 101 ∷ []; name = 97 ∷ 46 ∷ 99 ∷ 112 ∷ 112 ∷ [] }

abbrev pub header : BuildAlias
header = record { domain = 102 ∷ 105 ∷ 108 ∷ 101 ∷ []; name = 98 ∷ 46 ∷ 104 ∷ [] }

abbrev pub object : BuildAlias
object = record { domain = 102 ∷ 105 ∷ 108 ∷ 101 ∷ []; name = 97 ∷ 46 ∷ 111 ∷ [] }

abbrev pub unit : BuildAlias
unit = record { domain = 117 ∷ 110 ∷ 105 ∷ 116 ∷ []; name = 99 ∷ 111 ∷ 114 ∷ 101 ∷ [] }

abbrev pub stamp_of_content : ℕ → BuildStamp
stamp_of_content c = record { mod_time = 7; content = c }

abbrev pub dep : BuildAlias → ℕ → BuildDependency
dep a c = record { alias = a; stamp = stamp_of_content c }

-- A unit that was built from version 1 of its source.
abbrev pub node : BuildNode ℕ
node = record {
  alias = unit;
  buildable = 3;
  stamp = stamp_of_content 4;
  static = dep source 1 ∷ [];
  dynamic = dep header 2 ∷ [];
  output_files = [];
  output_nodes = [];
}

-- A compiler that reads the header and writes the object.
abbrev pub compiles : ℕ → BuildRun ℕ
compiles b = record {
  ops = need (dep header 2) ∷ output_file (dep object 9) ∷ [];
  buildable = b;
  error = none;
}

abbrev pub breaks : ℕ → BuildRun ℕ
breaks b = record { ops = need (dep header 2) ∷ []; buildable = b; error = some (other 1) }

-- The source has the given content, and nothing else has changed.
abbrev pub env_with : ℕ → Environment ℕ
env_with content = record {
  prepared = ok (dep source content ∷ []);
  static_results = ok (dep source content ∷ []);
  dynamic_results = ok (dep header 2 ∷ []);
  file_stamp = λ _. ok (stamp_of_content 9);
  build = compiles;
  fingerprint = λ b. b + 1;
  build_time = 8;
  abort = none;
  stop_on_error = false;
  debug = false;
}

pub Results-with :
    (content : ℕ) → Results (env_with content) node (dep source content ∷ []) (dep header 2 ∷ []) []
unfolding build_output_files aliases is_uniq
Results-with content = record {
  static_ok = refl;
  dynamic_ok = refl;
  outputs_ok = refl;
  static_fits = record { same = refl; uniq = refl };
  dynamic_fits = record { same = refl; uniq = refl };
  outputs_fit = record { same = refl; uniq = refl };
  static_valid = refl;
  dynamic_valid = refl;
  outputs_valid = refl;
}
