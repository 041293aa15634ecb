-- ===== src/BuildGraph/Files/Round.antt =====
-- What one round of a search for files changes.
use ppb.Prelude.{
  ◌≡◌, true, false, ◌||◌, ◌&&◌, not, Option, none, some, List, [], ◌∷◌, arith, ==_iff, elem,
  Comparable,
}
use ppb.Containers.SetT.{elem-append_uniq}
use ppb.BuildNode.Dependencies.{BuildAlias, alias_comparable, alias_equals_iff}
use ppb.BuildGraph.Files.{push_new, add_file}

pub push_new-queue :
    (visited queue next : List BuildAlias) (b : BuildAlias)
    → elem b (push_new visited queue next).1
      ≡ (elem b queue || (elem b next && not (elem b visited)))
unfolding push_new
push_new-queue visited queue [] b = ground arith
push_new-queue visited queue (a ∷ next) b = ground (
  arith,
  push_new-queue visited queue next b,
  push_new-queue (a ∷ visited) (a ∷ queue) next b,
  alias_equals_iff a b,
)

pub push_new-visited :
    (visited queue next : List BuildAlias) (b : BuildAlias)
    → elem b (push_new visited queue next).0 ≡ (elem b visited || elem b next)
unfolding push_new
push_new-visited visited queue [] b = ground arith
push_new-visited visited queue (a ∷ next) b = ground (
  arith,
  push_new-visited visited queue next b,
  push_new-visited (a ∷ visited) (a ∷ queue) next b,
  alias_equals_iff a b,
)

module _ {F : Type 0} ⦃e : Comparable F⦄ where
  pub add_file-keeps :
      (files : List F) (o : Option F) (f : F)
      → elem f files ≡ true
      → elem f (add_file files o) ≡ true
  unfolding add_file
  add_file-keeps files none f h = h
  add_file-keeps files (some g) f h = ground (arith, elem-append_uniq files (g ∷ []) f)

  pub add_file-has :
      (files : List F) (o : Option F) (f : F) → o ≡ some f → elem f (add_file files o) ≡ true
  unfolding add_file
  add_file-has files none f h = cc
  add_file-has files (some g) f h = ground (arith, elem-append_uniq files (g ∷ []) f, ==_iff g f)

  pub add_file-new :
      (files : List F) (o : Option F) (f : F)
      → elem f (add_file files o) ≡ true
      → elem f files ≡ false
      → o ≡ some f
  unfolding add_file
  add_file-new files none f h n = cc
  add_file-new files (some g) f h n = ground (arith, elem-append_uniq files (g ∷ []) f, ==_iff g f)
