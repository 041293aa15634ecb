-- ===== src/BuildExecution/Check/Laws.antt =====
-- When `needToBuild_assumeLocked` asks for a build.
use ppb.Prelude.{
  assertion, ◌≡◌, refl, Bool, true, false, ◌||◌, not, none, some, List, [], ◌∷◌, arith,
  if◌then◌else◌, Bool-cases, inl, inr,
}
use ppb.Containers.Slice.{is_uniq}
use ppb.BuildNode.Dependencies.{
  alias_comparable, is_valid, BuildDependencies, BuildResult, aliases, update_build, validate,
}
use ppb.BuildNode.Dependencies.Update.{differs, update_build_lem}
use ppb.BuildNode.Node.{BuildNode}
use ppb.BuildExecution.Environment.{ok, Environment}
use ppb.BuildExecution.Check.{build_output_files, Check, has_no_deps, need_to_build}

-- Results in the order of the dependencies, which are recorded once each.
pub record Fits (deps : BuildDependencies) (results : List BuildResult) : Type 0 where
  pub same : aliases deps ≡ aliases results
  pub uniq : is_uniq (aliases deps) ≡ true

pub Fits-update :
    (debug : Bool) {deps : BuildDependencies} {results : List BuildResult}
    → Fits deps results
    → assertion debug (validate results) ≡ true
    → update_build debug deps results ≡ some (results, differs deps results)
Fits-update debug {deps} {results} f v =
    ground (arith, update_build_lem debug deps results f.same f.uniq, v)

module _ {B : Type 0} (env : Environment B) (node : BuildNode B) where
  -- The three lists of results that the check looks at. A debug build asserts that their fingerprints are
  -- not empty.
  pub record Results (rs rd ro : List BuildResult) : Type 0 where
    pub static_ok : env.static_results ≡ ok rs
    pub dynamic_ok : env.dynamic_results ≡ ok rd
    pub outputs_ok : build_output_files env.file_stamp node.output_files ≡ ok ro
    pub static_fits : Fits node.static rs
    pub dynamic_fits : Fits node.dynamic rd
    pub outputs_fit : Fits node.output_files ro
    pub static_valid : assertion env.debug (validate rs) ≡ true
    pub dynamic_valid : assertion env.debug (validate rd) ≡ true
    pub outputs_valid : assertion env.debug (validate ro) ≡ true

  -- Whether some dependency has changed, in the order in which they are looked at.
  abbrev pub static_changed : List BuildResult → Bool
  static_changed rs = differs node.static rs

  abbrev pub deps_changed : List BuildResult → List BuildResult → Bool
  deps_changed rs rd = static_changed rs || differs node.dynamic rd

  abbrev pub any_changed : List BuildResult → List BuildResult → List BuildResult → Bool
  any_changed rs rd ro = deps_changed rs rd || differs node.output_files ro

  -- The outcome of a check that all dependencies pass.
  abbrev pub checked : List BuildResult → List BuildResult → List BuildResult → Check B
  checked rs rd ro = record {
    node = record node {
      static = rs;
      dynamic = if static_changed rs then node.dynamic else rd;
      output_files = if deps_changed rs rd then node.output_files else ro;
    };
    rebuild = any_changed rs rd ro || not (is_valid node.stamp);
    last_error = none;
    graph_dirty = any_changed rs rd ro;
  }

  -- With a node that has dependencies, and all of their results at hand, a build is asked for
  -- exactly when some stamp has changed or the node has no valid fingerprint, and there is no error.
  pub need_to_build_lem :
      {rs rd ro : List BuildResult}
      → has_no_deps node ≡ false
      → Results rs rd ro
      → (env.debug ≡ true → env.fingerprint node.buildable ≡ node.stamp.content)
      → need_to_build env node ≡ some (checked rs rd ro)
  unfolding need_to_build
  need_to_build_lem {rs} {rd} {ro} h r sound = ground (
    arith,
    Fits-update env.debug r.static_fits r.static_valid,
    Fits-update env.debug r.dynamic_fits r.dynamic_valid,
    Fits-update env.debug r.outputs_fit r.outputs_valid,
    sound,
  )

  rs-nil : (rs : List BuildResult) → [] ≡ aliases rs → rs ≡ []
  unfolding aliases
  rs-nil [] e = refl
  rs-nil (r ∷ rs) e = cc

  -- Whether or not there are dependencies, a check of results at hand records the static ones.
  pub need_to_build-static :
      {rs rd ro : List BuildResult} {c : Check B}
      → Results rs rd ro
      → (env.debug ≡ true → env.fingerprint node.buildable ≡ node.stamp.content)
      → need_to_build env node ≡ some c
      → (c.node.static ≡ rs) × (c.last_error ≡ none)
  need_to_build-static {rs} {rd} {ro} r sound e = elim (Bool-cases (has_no_deps node)) [
    | inl empty ↦ unfold need_to_build aliases in ground (arith, r.static_fits.same, rs-nil rs)
    | inr some_deps ↦ ground (arith, need_to_build_lem some_deps r sound)
  ]
