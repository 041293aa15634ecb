-- ===== src/BuildNode/Runs.antt =====
-- Concrete runs of the build nodes, and their theorems at concrete inputs.
use ppb.Prelude.{ℕ, ◌≡◌, refl, true, some, none, [], ◌∷◌, assertion, if◌then◌else◌}
use ppb.BuildNode.Dependencies.{
  BuildAlias, BuildStamp, BuildDependency, BuildDependencies, aliases, alias_comparable,
  alias_equals, stamp_comparable, stamp_equals, update_build, validate,
}
use ppb.Containers.Slice.{is_uniq}
use ppb.BuildNode.Dependencies.Update.{differs, update_build_lem}

abbrev src_a : BuildAlias
src_a = record { domain = 102 ∷ 105 ∷ 108 ∷ 101 ∷ []; name = 97 ∷ 46 ∷ 99 ∷ 112 ∷ 112 ∷ [] }

abbrev src_b : BuildAlias
src_b = record { domain = 102 ∷ 105 ∷ 108 ∷ 101 ∷ []; name = 98 ∷ 46 ∷ 104 ∷ [] }

abbrev unit : BuildAlias
unit = record { domain = 117 ∷ 110 ∷ 105 ∷ 116 ∷ []; name = 99 ∷ 111 ∷ 114 ∷ 101 ∷ [] }

abbrev stamp_of_content : ℕ → BuildStamp
stamp_of_content c = record { mod_time = 7; content = c }

abbrev dep : BuildAlias → ℕ → BuildDependency
dep a c = record { alias = a; stamp = stamp_of_content c }

abbrev recorded : BuildDependencies
recorded = dep src_a 1 ∷ dep src_b 2 ∷ []

abbrev fresh_results : BuildDependencies
fresh_results = dep src_a 1 ∷ dep src_b 5 ∷ []

update_build_run : update_build true recorded fresh_results ≡ some (fresh_results, true)
unfolding update_build alias_equals stamp_equals
update_build_run = refl

update_build_lem_example : update_build true recorded fresh_results ≡ (
    if assertion true (validate fresh_results)
    then some (fresh_results, differs recorded fresh_results)
    else none)
unfolding aliases is_uniq alias_equals
update_build_lem_example = update_build_lem true recorded fresh_results refl refl
