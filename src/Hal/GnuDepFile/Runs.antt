-- ===== src/Hal/GnuDepFile/Runs.antt =====
-- Runs of the reader of dependency files.
use ppb.Prelude.{
  ◌≡◌, refl, Bool, true, false, List, [], ◌∷◌, ◌++◌, map, elem, Bytes, nat_comparable,
  list_comparable,
}
use ppb.Switch.{codes}
use ppb.Hal.GnuDepFile.{load_names, is_space, load}
use ppb.Hal.GnuDepFile.RoundTrip.{print, names_of, load-print}

abbrev two : List (Bool × Bytes)
two = (false, codes "a b.c") ∷ (true, codes "c:/d.h") ∷ []

print_run :
    print (codes "a.o") two
    ≡ codes "a.o: a" ++ 92 ∷ codes " b.c " ++ 92 ∷ 10 ∷ codes "  c:/d.h" ++ 10 ∷ []
print_run = refl

load_run : load_names (print (codes "a.o") two) ≡ codes "a b.c" ∷ codes "c:/d.h" ∷ []
unfolding load_names is_space
load_run = refl

-- The rest of the file is read as names: the colon of a second rule stays in its name.
second_rule :
    load_names (codes "a.o: a.c" ++ 10 ∷ codes "b.h:" ++ 10 ∷ []) ≡ codes "a.c" ∷ codes "b.h:" ∷ []
unfolding load_names is_space
second_rule = refl

-- The first colon is that of the drive.
drive : load_names (codes "c:/a.o: a.c" ++ 10 ∷ []) ≡ codes "/a.o:" ∷ codes "a.c" ∷ []
unfolding load_names is_space
drive = refl

load-print_example :
    (load_names (print (codes "a.o") two) ≡ names_of two)
    × ((f : Bytes)
        → elem f (load (λ name. name) (print (codes "a.o") two))
          ≡ elem f (map (λ name. name) (names_of two)))
unfolding is_space
load-print_example = load-print (λ name. name) (codes "a.o") two refl refl
