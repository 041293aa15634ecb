-- ===== src/BuildNode/Dependencies.antt =====
-- `BuildAlias` of utils/BuildAlias.go, `BuildStamp` and `BuildResult` of utils/BuildGraph.go, and
-- `BuildDependencies` of utils/BuildNode.go.
pub mod Update
use ppb.Prelude.{
  assertion, length, ℕ, zero, suc, ◌+◌, ◌≡◌, refl, Bool, true, false, ◌&&◌, ◌||◌, not, Option, none,
  some, List, [], ◌∷◌, ◌++◌, map, arith, if◌then◌else◌, Comparable, ◌==◌, ==_iff, ◌↔◌, ap, Bytes,
  elem, eqb, eqb_iff, list_comparable, nat_comparable,
}
use ppb.Containers.Slice.{is_uniq}

-- A domain and a name.
pub record BuildAlias : Type 0 where
  pub domain : Bytes
  pub name : Bytes

-- `Equals`, which is also the `==` of the struct.
unfoldable pub alias_equals : BuildAlias → BuildAlias → Bool
alias_equals x o = x.name == o.name && x.domain == o.domain

pub alias_equals_iff : (x o : BuildAlias) → (alias_equals x o ≡ true) ↔ (x ≡ o)
unfolding alias_equals
alias_equals_iff x o = ground (arith, ==_iff x.name o.name, ==_iff x.domain o.domain)

instance abbrev pub alias_comparable : Comparable BuildAlias
alias_comparable = record { same = alias_equals; same_iff = alias_equals_iff }

-- A modification time in milliseconds, and a fingerprint: the 32 bytes as one number, so that the
-- empty fingerprint is 0. The zero `BuildStamp{}` has the time 0 of the model.
pub record BuildStamp : Type 0 where
  pub mod_time : ℕ
  pub content : ℕ

-- `BuildStamp{}`
abbrev pub no_stamp : BuildStamp
no_stamp = record { mod_time = 0; content = 0 }

-- `Fingerprint.Valid`: some byte is not 0.
abbrev pub is_valid : BuildStamp → Bool
is_valid stamp = not (eqb stamp.content 0)

unfoldable pub stamp_equals : BuildStamp → BuildStamp → Bool
stamp_equals x o = eqb x.mod_time o.mod_time && eqb x.content o.content

pub stamp_equals_iff : (x o : BuildStamp) → (stamp_equals x o ≡ true) ↔ (x ≡ o)
unfolding stamp_equals
stamp_equals_iff x o = ground arith

instance abbrev pub stamp_comparable : Comparable BuildStamp
stamp_comparable = record { same = stamp_equals; same_iff = stamp_equals_iff }

pub record BuildDependency : Type 0 where
  pub alias : BuildAlias
  pub stamp : BuildStamp

abbrev pub BuildDependencies : Type 0
BuildDependencies = List BuildDependency

-- The alias and the stamp of a `BuildResult`: what its receiver records of it.
abbrev pub BuildResult : Type 0
BuildResult = BuildDependency

-- `len(deps) == 0`
abbrev pub is_empty : BuildDependencies → Bool
is_empty [] = true
is_empty (it ∷ deps) = false

-- `Aliases`
unfoldable pub aliases : BuildDependencies → List BuildAlias
aliases [] = []
aliases (it ∷ deps) = it.alias ∷ aliases deps

-- The flag that `IndexOf` returns.
unfoldable pub has : BuildDependencies → BuildAlias → Bool
has [] alias = false
has (it ∷ deps) alias = it.alias == alias || has deps alias

-- The stamp at the first place of the alias: `deps[i].Stamp` for the index that `IndexOf` finds.
unfoldable pub stamp_of : BuildDependencies → BuildAlias → Option BuildStamp
stamp_of [] alias = none
stamp_of (it ∷ deps) alias = if it.alias == alias then some it.stamp else stamp_of deps alias

-- `Add`: overwrites the stamp at the first place of the alias, or appends a dependency.
unfoldable pub add : BuildDependencies → BuildAlias → BuildStamp → BuildDependencies
add [] alias stamp = record { alias = alias; stamp = stamp } ∷ []
add (it ∷ deps) alias stamp =
    let rest = add deps alias stamp in
    if it.alias == alias then record it { stamp = stamp } ∷ deps else it ∷ rest

-- `validate`: no stamp has an empty fingerprint.
unfoldable pub validate : BuildDependencies → Bool
validate [] = true
validate (it ∷ deps) = is_valid it.stamp && validate deps

-- `makeDirty`: every stamp is emptied.
unfoldable pub make_dirty : BuildDependencies → BuildDependencies
make_dirty [] = []
make_dirty (it ∷ deps) = record it { stamp = no_stamp } ∷ make_dirty deps

-- The loop of `updateBuild`. A result whose alias is not recorded trips an assertion of the debug
-- build, and in a release build indexes the slice out of range: `none` is that panic. In a debug build
-- each fingerprint is asserted not to be empty.
update_loop : Bool → BuildDependencies → Bool → List BuildResult → Option (BuildDependencies × Bool)
unfolding stamp_of add
update_loop debug deps rebuild [] = some (deps, rebuild)
update_loop debug deps rebuild (result ∷ results) = elim (assertion debug (is_valid result.stamp)) [
  | false ↦ none
  | true ↦ elim (stamp_of deps result.alias) [
    | none ↦ none
    | some old_stamp ↦ elim (old_stamp == result.stamp) [
      | true ↦ update_loop debug deps rebuild results
      | false ↦ update_loop debug (add deps result.alias result.stamp) true results
    ]
  ]
]

-- A debug build asserts that there are as many results as dependencies.
unfoldable pub update_build :
    (debug : Bool) → BuildDependencies → List BuildResult → Option (BuildDependencies × Bool)
unfolding update_loop
update_build debug deps results =
    if assertion debug (eqb (length results) (length deps))
    then update_loop debug deps false results
    else none

pub has-elem : (deps : BuildDependencies) (a : BuildAlias) → has deps a ≡ elem a (aliases deps)
unfolding has aliases
has-elem [] a = refl
has-elem (it ∷ deps) a = ground (arith, has-elem deps a)

pub has-add :
    (deps : BuildDependencies) (a : BuildAlias) (s : BuildStamp) (b : BuildAlias)
    → has (add deps a s) b ≡ (a == b || has deps b)
unfolding has add
has-add [] a s b = refl
has-add (it ∷ deps) a s b = ground (
  arith,
  has-add deps a s b,
  alias_equals_iff it.alias a,
  alias_equals_iff it.alias b,
  alias_equals_iff a b,
)

pub stamp_of-add :
    (deps : BuildDependencies) (a : BuildAlias) (s : BuildStamp) (b : BuildAlias)
    → stamp_of (add deps a s) b ≡ (if a == b then some s else stamp_of deps b)
unfolding stamp_of add
stamp_of-add [] a s b = refl
stamp_of-add (it ∷ deps) a s b = ground (
  arith,
  stamp_of-add deps a s b,
  alias_equals_iff it.alias a,
  alias_equals_iff it.alias b,
  alias_equals_iff a b,
)

pub is_uniq-add :
    (deps : BuildDependencies) (a : BuildAlias) (s : BuildStamp)
    → is_uniq (aliases (add deps a s)) ≡ is_uniq (aliases deps)
unfolding aliases add is_uniq
is_uniq-add [] a s = refl
is_uniq-add (it ∷ deps) a s = ground (
  arith,
  is_uniq-add deps a s,
  has-elem deps it.alias,
  has-elem (add deps a s) it.alias,
  has-add deps a s it.alias,
  alias_equals_iff it.alias a,
  alias_equals_iff a it.alias,
)

pub validate-add :
    (deps : BuildDependencies) (a : BuildAlias) (s : BuildStamp)
    → is_valid s ≡ true
    → validate deps ≡ true
    → validate (add deps a s) ≡ true
unfolding add validate
validate-add [] a s v h = ground arith
validate-add (it ∷ deps) a s v h = ground (arith, validate-add deps a s v)

pub aliases-make_dirty : (deps : BuildDependencies) → aliases (make_dirty deps) ≡ aliases deps
unfolding aliases make_dirty
aliases-make_dirty [] = refl
aliases-make_dirty (it ∷ deps) = ap (λ rest. it.alias ∷ rest) (aliases-make_dirty deps)

pub is_empty-same :
    (deps others : BuildDependencies)
    → aliases deps ≡ aliases others
    → is_empty deps ≡ is_empty others
unfolding aliases
is_empty-same [] [] e = refl
is_empty-same [] (o ∷ others) e = cc
is_empty-same (it ∷ deps) [] e = cc
is_empty-same (it ∷ deps) (o ∷ others) e = refl

pub is_empty-make_dirty : (deps : BuildDependencies) → is_empty (make_dirty deps) ≡ is_empty deps
unfolding make_dirty
is_empty-make_dirty [] = refl
is_empty-make_dirty (it ∷ deps) = refl
