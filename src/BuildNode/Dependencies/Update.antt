-- ===== src/BuildNode/Dependencies/Update.antt =====
-- What `updateBuild` does with the results of the dependencies, in their order.
use ppb.Prelude.{
  assertion, if◌then◌else◌, length, Bool-cases, inl, inr, none, ◌≡◌, refl, Bool, true, false, ◌||◌,
  not, some, List, [], ◌∷◌, ◌++◌, arith, ◌==◌, ==-refl,
}
use mathlib.Core.List.{append_assoc}
use ppb.Containers.Slice.{is_uniq}
use ppb.BuildNode.Dependencies.{
  BuildAlias, alias_comparable, alias_equals_iff, BuildStamp, stamp_comparable, stamp_equals_iff,
  BuildDependency, BuildDependencies, BuildResult, aliases, has, has-elem, stamp_of, add,
  update_loop, update_build, validate, make_dirty, no_stamp, is_empty, is_valid,
}

-- Whether some result has another stamp than the dependency in its place.
abbrev pub differs : BuildDependencies → List BuildResult → Bool
differs [] results = false
differs (it ∷ deps) [] = false
differs (it ∷ deps) (result ∷ results) = not (it.stamp == result.stamp) || differs deps results

pub stamp_of-middle :
    (done : BuildDependencies) (it : BuildDependency) (rest : BuildDependencies)
    → has done it.alias ≡ false
    → stamp_of (done ++ it ∷ rest) it.alias ≡ some it.stamp
unfolding stamp_of has
stamp_of-middle [] it rest h = ground (arith, ==-refl it.alias)
stamp_of-middle (d ∷ done) it rest h = ground (arith, stamp_of-middle done it rest)

add-middle :
    (done : BuildDependencies) (it : BuildDependency) (rest : BuildDependencies) (s : BuildStamp)
    → has done it.alias ≡ false
    → add (done ++ it ∷ rest) it.alias s ≡ done ++ record it { stamp = s } ∷ rest
unfolding add has
add-middle [] it rest s h = ground (arith, ==-refl it.alias)
add-middle (d ∷ done) it rest s h = ground (arith, add-middle done it rest s)

pub has-snoc :
    (done : BuildDependencies) (it : BuildDependency) (a : BuildAlias)
    → has (done ++ it ∷ []) a ≡ (has done a || it.alias == a)
unfolding has
has-snoc [] it a = ground arith
has-snoc (d ∷ done) it a = ground (arith, has-snoc done it a)

-- No alias of the second list stands in the first one, nor twice in the second.
abbrev pub Fresh : BuildDependencies → List BuildResult → Type 0
Fresh done [] = Unit
Fresh done (r ∷ rest) = (has done r.alias ≡ false) × Fresh (done ++ r ∷ []) rest

-- One round: the stamp in the place of the result is the result's afterwards.
update_step :
    (debug : Bool) (done : BuildDependencies) (it : BuildDependency) (old : BuildDependencies)
    (rebuild : Bool) (r : BuildResult) (results : List BuildResult)
    → it.alias ≡ r.alias
    → has done r.alias ≡ false
    → assertion debug (is_valid r.stamp) ≡ true
    → update_loop debug (done ++ it ∷ old) rebuild (r ∷ results)
      ≡ update_loop debug (done ++ r ∷ old) (rebuild || not (it.stamp == r.stamp)) results
unfolding update_loop
update_step debug done it old rebuild r results e f v = ground (
  arith,
  stamp_of-middle done it old,
  add-middle done it old r.stamp,
  stamp_equals_iff it.stamp r.stamp,
)

-- The assertion on the fingerprints fails at the first empty one.
update_stop :
    (debug : Bool) (deps : BuildDependencies) (rebuild : Bool) (r : BuildResult)
    (results : List BuildResult)
    → assertion debug (is_valid r.stamp) ≡ false
    → update_loop debug deps rebuild (r ∷ results) ≡ none
unfolding update_loop
update_stop debug deps rebuild r results v = ground (arith, v)

update_loop-middle :
    (debug : Bool) (done old : BuildDependencies) (rebuild : Bool) (results : List BuildResult)
    → aliases old ≡ aliases results
    → Fresh done results
    → update_loop debug (done ++ old) rebuild results ≡ (
        if assertion debug (validate results)
        then some (done ++ results, rebuild || differs old results)
        else none)
unfolding aliases validate
update_loop-middle debug done [] rebuild [] e f = unfold update_loop in ground arith
update_loop-middle debug done [] rebuild (r ∷ results) e f = cc
update_loop-middle debug done (it ∷ old) rebuild [] e f = cc
update_loop-middle debug done (it ∷ old) rebuild (r ∷ results) e f =
    elim (Bool-cases (assertion debug (is_valid r.stamp))) [
      | inr v ↦ ground (arith, update_stop debug (done ++ it ∷ old) rebuild r results v)
      | inl v ↦ ground (
        arith,
        update_step debug done it old rebuild r results,
        append_assoc done (r ∷ []) old,
        append_assoc done (r ∷ []) results,
        update_loop-middle debug (done ++ r ∷ []) old (rebuild || not (it.stamp == r.stamp))
            results,
      )
    ]

pub Fresh-of_uniq :
    (done : BuildDependencies) (results : List BuildResult)
    → ((a : BuildAlias) → has done a ≡ true → has results a ≡ false)
    → is_uniq (aliases results) ≡ true
    → Fresh done results
unfolding is_uniq aliases
Fresh-of_uniq done [] h u = tt
Fresh-of_uniq done (r ∷ results) h u = (
  unfold has in ground (arith, h r.alias, ==-refl r.alias),
  Fresh-of_uniq (done ++ r ∷ []) results
      (λ a.
        unfold has in
        ground (arith, h a, has-snoc done r a, has-elem results a, alias_equals_iff r.alias a))
      (ground arith),
)

length-aliases :
    (deps : BuildDependencies) (results : List BuildResult)
    → aliases deps ≡ aliases results
    → length results ≡ length deps
unfolding aliases
length-aliases [] [] e = refl
length-aliases [] (r ∷ results) e = cc
length-aliases (it ∷ deps) [] e = cc
length-aliases (it ∷ deps) (r ∷ results) e = ground (arith, length-aliases deps results)

-- Given the results of all dependencies, in their order and without repetition: in a debug build where
-- the fingerprint of some result is empty, `updateBuild` panics; otherwise it records exactly these
-- results, and asks for a rebuild exactly when some stamp has changed.
pub update_build_lem :
    (debug : Bool) (deps : BuildDependencies) (results : List BuildResult)
    → aliases deps ≡ aliases results
    → is_uniq (aliases deps) ≡ true
    → update_build debug deps results
      ≡ (if assertion debug (validate results) then some (results, differs deps results) else none)
unfolding update_build
update_build_lem debug deps results e u =
    let loop =
      update_loop-middle debug [] deps false results e
        (Fresh-of_uniq [] results (λ a h. unfold has in cc) (rw (← e) u)) in
    ground (arith, length-aliases deps results, loop)

-- Where no stamp differs, the results are what is recorded already.
pub differs-eq :
    (deps : BuildDependencies) (results : List BuildResult)
    → aliases deps ≡ aliases results
    → differs deps results ≡ false
    → deps ≡ results
unfolding aliases
differs-eq [] [] e d = refl
differs-eq [] (r ∷ results) e d = cc
differs-eq (it ∷ deps) [] e d = cc
differs-eq (it ∷ deps) (r ∷ results) e d =
    ground (arith, differs-eq deps results, stamp_equals_iff it.stamp r.stamp)

pub differs_refl : (deps : BuildDependencies) → differs deps deps ≡ false
differs_refl [] = refl
differs_refl (it ∷ deps) = ground (arith, differs_refl deps, ==-refl it.stamp)

-- An emptied stamp differs from every valid one.
pub differs-make_dirty :
    (deps : BuildDependencies) (results : List BuildResult)
    → aliases (make_dirty deps) ≡ aliases results
    → validate results ≡ true
    → differs (make_dirty deps) results ≡ not (is_empty deps)
unfolding aliases make_dirty validate
differs-make_dirty [] results e v = refl
differs-make_dirty (it ∷ deps) [] e v = cc
differs-make_dirty (it ∷ deps) (r ∷ results) e v = ground (arith, stamp_equals_iff no_stamp r.stamp)
