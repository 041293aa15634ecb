-- ===== src/BuildGraph/Files/Found.antt =====
-- `GetDependencyOutputFiles` and the recursive `GetDependencyInputFiles` return, and what they return.
use ppb.Prelude.{
  ℕ, zero, suc, ◌-◌, ◌≤◌, ◌≡◌, refl, sym, ap, ◌∙◌, true, Option, some, List, [], ◌∷◌, arith, length,
  length-append, elem, elem-append, Comparable, Option-cases, inl, inr,
}
use mathlib.Core.List.{reverse, reverse-cons}
use ppb.BuildNode.Dependencies.{BuildAlias, alias_comparable}
use ppb.BuildNode.Node.{BuildNode}
use ppb.BuildExecution.Environment.{Outcome, ok, err}
use ppb.BuildGraph.Files.{
  push_new, find_node, add_file, search, search_input, all_next, output_next, input_next, enough,
  get_dependency_output_files, get_dependency_input_files,
}
use ppb.BuildGraph.Files.Fuel.{unvisited, search_returns}
use ppb.BuildGraph.Files.Reach.{Reachable, IsAnswer, search-IsAnswer}

length-reverse : (xs : List BuildAlias) → length (reverse xs) ≡ length xs
length-reverse [] = refl
length-reverse (x ∷ xs) =
    omega
      (arith, length-reverse xs, length-append (reverse xs) (x ∷ []), ap length (reverse-cons x xs))

elem-reverse : (a : BuildAlias) (xs : List BuildAlias) → elem a (reverse xs) ≡ elem a xs
elem-reverse a [] = refl
elem-reverse a (x ∷ xs) =
    ground (arith, reverse-cons x xs, elem-append a (reverse xs) (x ∷ []), elem-reverse a xs)

-- What is reached depends on what the roots are, not on their order.
Reachable-roots :
    {B : Type 0} (nodes : List (BuildNode B)) (next : BuildNode B → List BuildAlias)
    (roots others : List BuildAlias)
    → ((a : BuildAlias) → elem a roots ≡ elem a others)
    → (a : BuildAlias) → Reachable nodes next roots a
    → Reachable nodes next others a
Reachable-roots nodes next roots others h a (Reachable.root _ r) =
    Reachable.root a (ground (arith, h a))
Reachable-roots nodes next roots others h b (Reachable.step a _ node r found e) =
    Reachable.step a b node (Reachable-roots nodes next roots others h a r) found e

unvisited_all : (all : List BuildAlias) → unvisited [] all ≤ length all
unvisited_all [] = omega arith
unvisited_all (a ∷ all) = omega (arith, unvisited_all all)

module _ {B F : Type 0} ⦃e : Comparable F⦄ where
  IsAnswer-roots :
      (nodes : List (BuildNode B)) (file_of : B → Option F) (next : BuildNode B → List BuildAlias)
      (roots others : List BuildAlias)
      → ((a : BuildAlias) → elem a roots ≡ elem a others)
      → (out : Outcome (List F)) → IsAnswer nodes file_of next roots out
      → IsAnswer nodes file_of next others out
  IsAnswer-roots nodes file_of next roots others h (ok files) answer = λ f. (
    λ e.
        let (a, node, r, found, has) = (answer f).0 e in
        (a, node, Reachable-roots nodes next roots others h a r, found, has),
    λ (a, node, r, found, has).
        (answer f).1
          (a, node, Reachable-roots nodes next others roots (λ b. sym (h b)) a r, found, has),
  )
  IsAnswer-roots nodes file_of next roots others h (err x) (a, e, r, missing) =
      (a, e, Reachable-roots nodes next roots others h a r, missing)

  search-enough :
      (nodes : List (BuildNode B)) (file_of : B → Option F) (next : BuildNode B → List BuildAlias)
      (queue : List BuildAlias)
      → (out : Outcome (List F)) × (search nodes file_of next
            (enough next nodes queue)
            []
            []
            (reverse queue)
          ≡ some out)
        × IsAnswer nodes file_of next queue out
  search-enough nodes file_of next queue =
      let fuel = enough next nodes queue in
      let (out, r) =
        search_returns nodes file_of next fuel [] [] (reverse queue)
          (omega (arith, unvisited_all (all_next next nodes), length-reverse queue)) in
      (
        out,
        r,
        IsAnswer-roots nodes file_of next (reverse queue) queue (λ a. elem-reverse a queue) out
            (search-IsAnswer nodes file_of next (reverse queue) fuel out r),
      )

  -- With `recursive` the count of the user's inputs does not matter.
  search_input-search :
      (nodes : List (BuildNode B)) (file_of : B → Option F) (next : BuildNode B → List BuildAlias)
      (fuel left : ℕ) (files : List F) (visited queue : List BuildAlias)
      → search_input true nodes file_of next fuel left files visited queue
        ≡ search nodes file_of next fuel files visited queue
  unfolding search_input search
  search_input-search nodes file_of next zero left files visited queue = refl
  search_input-search nodes file_of next (suc fuel) left files visited [] = refl
  search_input-search nodes file_of next (suc fuel) left files visited (a ∷ queue) =
      elim (Option-cases (find_node nodes a)) [
        | inl e ↦ ground (arith, e)
        | inr (node, e) ↦
            let p = push_new visited queue (next node) in
            ground (
              arith,
              e,
              search_input-search nodes file_of next fuel (left - 1)
                  (add_file files (file_of node.buildable)) p.0 p.1,
            )
      ]

  -- `GetDependencyOutputFiles` returns: either exactly the files of the nodes that are reached from the
  -- given aliases over output files and output nodes, or the error that an alias which is so reached
  -- has no node.
  pub output_files_lem :
      (nodes : List (BuildNode B)) (file_of : B → Option F) (queue : List BuildAlias)
      → (out : Outcome (List F)) × (get_dependency_output_files nodes file_of queue ≡ some out)
        × IsAnswer nodes file_of output_next queue out
  unfolding get_dependency_output_files
  output_files_lem nodes file_of queue = search-enough nodes file_of output_next queue

  -- The recursive `GetDependencyInputFiles` returns: either exactly the files of the nodes that are
  -- reached from the given aliases over static and dynamic dependencies, or the error that an alias
  -- which is so reached has no node.
  pub input_files_lem :
      (nodes : List (BuildNode B)) (file_of : B → Option F) (queue : List BuildAlias)
      → (out : Outcome (List F)) × (get_dependency_input_files true nodes file_of queue ≡ some out)
        × IsAnswer nodes file_of input_next queue out
  unfolding get_dependency_input_files
  input_files_lem nodes file_of queue =
      let (out, r, answer) = search-enough nodes file_of input_next queue in
      (
        out,
        search_input-search nodes file_of input_next (enough input_next nodes queue) (length queue)
              [] [] (reverse queue)
            ∙ r,
        answer,
      )
