-- ===== src/BuildExecution/Options.antt =====
-- `BuildOptions` of utils/BuildExecution.go, without its events and what it keeps for the messages of
-- the debug build. A caller is known by its alias.
use ppb.Prelude.{
  assertion, ◌≡◌, Bool, true, false, ◌&&◌, not, Option, none, some, List, [], ◌∷◌, arith,
  if◌then◌else◌, ◌==◌, Option-cases, inl, inr,
}
use ppb.BuildNode.Dependencies.{BuildAlias, alias_comparable}
use ppb.BuildNode.Node.{is_alias}

pub record BuildOptions : Type 0 where
  pub caller : Option BuildAlias
  pub dirty : Bool
  pub force : Bool
  pub recursive : Bool
  pub no_warning_on_missing_output : Bool

-- `BuildOptions{}`
abbrev pub no_options : BuildOptions
no_options = record {
  caller = none;
  dirty = false;
  force = false;
  recursive = false;
  no_warning_on_missing_output = false;
}

-- The functions that set options.
abbrev pub BuildOptionFunc : Type 0
BuildOptionFunc = BuildOptions → BuildOptions

abbrev pub option_build_caller : BuildAlias → BuildOptionFunc
option_build_caller node opts = record opts { caller = some node }

abbrev pub option_build_dirty_if : Bool → BuildOptionFunc
option_build_dirty_if dirty opts = record opts { dirty = dirty }

abbrev pub option_build_dirty : BuildOptionFunc
option_build_dirty opts = record opts { dirty = true }

abbrev pub option_build_force_if : Bool → BuildOptionFunc
option_build_force_if force opts = record opts { force = force }

abbrev pub option_build_force : BuildOptionFunc
option_build_force opts = record opts { force = true }

abbrev pub option_build_force_recursive : BuildOptionFunc
option_build_force_recursive opts = record opts { force = true; recursive = true }

abbrev pub option_no_warning_on_missing_output : BuildOptionFunc
option_no_warning_on_missing_output opts = record opts { no_warning_on_missing_output = true }

abbrev pub option_warning_on_missing_output_if : Bool → BuildOptionFunc
option_warning_on_missing_output_if warn opts = record opts {
  no_warning_on_missing_output = not warn;
}

abbrev pub option_build_copy : BuildOptions → BuildOptionFunc
option_build_copy value opts = value

-- `Init`
unfoldable pub init : BuildOptions → List BuildOptionFunc → BuildOptions
init x [] = x
init x (it ∷ options) = init (it x) options

-- `NewBuildOptions`
unfoldable pub new_build_options : List BuildOptionFunc → BuildOptions
unfolding init
new_build_options options = init no_options options

abbrev pub option_build_override : List BuildOptionFunc → BuildOptionFunc
option_build_override overrides opts = init opts overrides

-- Whether the caller of the options is the node.
abbrev pub calls : BuildOptions → BuildAlias → Bool
calls x node = elim x.caller [ none ↦ false | some caller ↦ caller == node ]

-- `Recurse`: the options for the dependencies of the node. `none` is a failed assertion.
unfoldable pub recurse : Bool → BuildOptions → BuildAlias → Option BuildOptions
recurse debug x node =
    if assertion debug (not (calls x node) && is_alias node)
    then some (record {
      caller = some node;
      dirty = false;
      force = x.recursive && x.force;
      recursive = x.recursive;
      no_warning_on_missing_output = x.no_warning_on_missing_output;
    })
    else none

-- The options down a chain of dependencies, each node the caller of the next.
unfoldable pub recurse_all : Bool → BuildOptions → List BuildAlias → Option BuildOptions
unfolding recurse
recurse_all debug x [] = some x
recurse_all debug x (node ∷ nodes) = elim (recurse debug x node) [
  | none ↦ none
  | some y ↦ recurse_all debug y nodes
]

-- Down a chain of at least one node that meets no assertion: a build is forced exactly when it was
-- forced and recursive at the start, it is recursive as at the start, it is never dirty, and the
-- warnings are those of the start.
pub recurse_all_lem :
    (debug : Bool) (x y : BuildOptions) (node : BuildAlias) (nodes : List BuildAlias)
    → recurse_all debug x (node ∷ nodes) ≡ some y
    → (y.force ≡ (x.recursive && x.force))
      × (y.recursive ≡ x.recursive)
      × (y.dirty ≡ false)
      × (y.no_warning_on_missing_output ≡ x.no_warning_on_missing_output)
unfolding recurse_all recurse
recurse_all_lem debug x y node [] h = (ground arith, ground arith, ground arith, ground arith)
recurse_all_lem debug x y node (n ∷ nodes) h = elim (Option-cases (recurse debug x node)) [
  | inl e ↦ absurd (ground (arith, e))
  | inr (z, e) ↦
      let (f, r, d, w) = recurse_all_lem debug z y n nodes (ground (arith, e)) in
      (ground (arith, f, e), ground (arith, r, e), d, ground (arith, w, e))
]
