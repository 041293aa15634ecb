-- ===== src/BuildGraph/Files/Reach.antt =====
-- What the searches for files find.
use ppb.Prelude.{
  ℕ, zero, suc, ◌≡◌, true, ◌||◌, Option, none, some, List, [], ◌∷◌, arith, ◌==◌, ==-refl, elem,
  Comparable, Option-cases, Bool-cases, inl, inr, ◌⊎◌, ◌↔◌,
}
use ppb.BuildNode.Dependencies.{BuildAlias, alias_comparable, alias_equals_iff}
use ppb.BuildNode.Node.{BuildNode}
use ppb.BuildExecution.Environment.{Outcome, ok, err, BuildError, not_found}
use ppb.BuildGraph.Files.{push_new, find_node, add_file, search}
use ppb.BuildGraph.Files.Round.{
  push_new-queue, push_new-visited, add_file-keeps, add_file-has, add_file-new,
}

-- What a search is asked for: the alias is one of the roots, or the next one of a node that is.
pub data Reachable {B : Type 0} (nodes : List (BuildNode B)) (next : BuildNode B → List BuildAlias)
    (roots : List BuildAlias) : BuildAlias → Type 0 where
  root : (a : BuildAlias) → elem a roots ≡ true → Reachable nodes next roots a
  step :
      (a b : BuildAlias) (node : BuildNode B)
      → Reachable nodes next roots a
      → find_node nodes a ≡ some node
      → elem b (next node) ≡ true
      → Reachable nodes next roots b

module _ {B F : Type 0} ⦃e : Comparable F⦄ (nodes : List (BuildNode B)) (file_of : B → Option F)
    (next : BuildNode B → List BuildAlias) (roots : List BuildAlias) where
  -- The file of a node that is reached.
  abbrev pub HasFile : F → Type 0
  HasFile f =
      (a : BuildAlias) × (node : BuildNode B) × Reachable nodes next roots a
      × (find_node nodes a ≡ some node)
      × (file_of node.buildable ≡ some f)

  -- What is pushed for a node that is reached is reached.
  push_new-Reachable :
      (visited queue : List BuildAlias) (a : BuildAlias) (node : BuildNode B)
      → ((b : BuildAlias) → elem b (a ∷ queue) ≡ true → Reachable nodes next roots b)
      → find_node nodes a ≡ some node
      → (b : BuildAlias) → elem b (push_new visited queue (next node)).1 ≡ true
      → Reachable nodes next roots b
  push_new-Reachable visited queue a node r found b h = elim (Bool-cases (elem b queue)) [
    | inl old ↦ r b (ground arith)
    | inr fresh ↦
        step a b node (r a (ground (arith, ==-refl a))) found
          (ground (arith, push_new-queue visited queue (next node) b))
  ]

  -- A missing node ends the search: it was reached.
  search-missing :
      (fuel : ℕ) (files : List F) (visited queue : List BuildAlias) (x : BuildError)
      → ((a : BuildAlias) → elem a queue ≡ true → Reachable nodes next roots a)
      → search nodes file_of next fuel files visited queue ≡ some (err x)
      → (a : BuildAlias) × (x ≡ not_found a)
        × Reachable nodes next roots a
        × (find_node nodes a ≡ none)
  unfolding search
  search-missing zero files visited queue x r h = cc
  search-missing (suc fuel) files visited [] x r h = cc
  search-missing (suc fuel) files visited (a ∷ queue) x r h =
      elim (Option-cases (find_node nodes a)) [
        | inl missing ↦ (a, ground (arith, missing), r a (ground (arith, ==-refl a)), missing)
        | inr (node, found) ↦
            let p = push_new visited queue (next node) in
            search-missing fuel (add_file files (file_of node.buildable)) p.0 p.1 x
              (push_new-Reachable visited queue a node r found) (ground (arith, found))
      ]

  -- Each file of the result was there, or is the file of a node that was reached.
  search-HasFile :
      (fuel : ℕ) (files : List F) (visited queue : List BuildAlias) (out : List F)
      → ((a : BuildAlias) → elem a queue ≡ true → Reachable nodes next roots a)
      → ((f : F) → elem f files ≡ true → HasFile f)
      → search nodes file_of next fuel files visited queue ≡ some (ok out)
      → (f : F) → elem f out ≡ true
      → HasFile f
  unfolding search
  search-HasFile zero files visited queue out r old h = cc
  search-HasFile (suc fuel) files visited [] out r old h = λ f e. old f (ground arith)
  search-HasFile (suc fuel) files visited (a ∷ queue) out r old h =
      elim (Option-cases (find_node nodes a)) [
        | inl missing ↦ cc
        | inr (node, found) ↦
            let p = push_new visited queue (next node) in
            search-HasFile fuel (add_file files (file_of node.buildable)) p.0 p.1 out
              (push_new-Reachable visited queue a node r found)
              (λ f e. elim (Bool-cases (elem f files)) [
                | inl before ↦ old f before
                | inr now ↦ (
                  a,
                  node,
                  r a (ground (arith, ==-refl a)),
                  found,
                  add_file-new files (file_of node.buildable) f e now,
                )
              ])
              (ground (arith, found))
      ]

  -- The file of the node is in the set, and all that it pushes was visited.
  abbrev Closed : List F → List BuildAlias → BuildAlias → Type 0
  Closed files visited a =
      (node : BuildNode B) × (find_node nodes a ≡ some node)
      × ((f : F) → file_of node.buildable ≡ some f → elem f files ≡ true)
      × ((b : BuildAlias) → elem b (next node) ≡ true → elem b visited ≡ true)

  -- What was asked for or visited waits in the queue, or is done.
  abbrev Progress : List F → List BuildAlias → List BuildAlias → Type 0
  Progress files visited queue =
      (a : BuildAlias)
      → (elem a roots || elem a visited) ≡ true
      → (elem a queue ≡ true) ⊎ Closed files visited a

  Progress-step :
      (files : List F) (visited queue : List BuildAlias) (a : BuildAlias) (node : BuildNode B)
      → find_node nodes a ≡ some node
      → Progress files visited (a ∷ queue)
      → Progress
          (add_file files (file_of node.buildable))
          (push_new visited queue (next node)).0
          (push_new visited queue (next node)).1
  Progress-step files visited queue a node found h b e =
      let q = push_new visited queue (next node) in
      let pushed = push_new-queue visited queue (next node) b in
      elim (Bool-cases (a == b)) [
        | inl same ↦
            let this : a ≡ b = ground (arith, alias_equals_iff a b) in
            inr (
              node,
              rw (← this) found,
              λ f has. add_file-has files (file_of node.buildable) f has,
              λ c after. ground (arith, push_new-visited visited queue (next node) c),
            )
        | inr other ↦ elim (Bool-cases (elem b roots || elem b visited)) [
          | inr fresh ↦ inl (ground (arith, pushed, push_new-visited visited queue (next node) b))
          | inl old ↦ elim (h b old) [
            | inl waits ↦ inl (ground (arith, pushed))
            | inr (node', found', has_file, closed) ↦ inr (
              node',
              found',
              λ f has. add_file-keeps files (file_of node.buildable) f (has_file f has),
              λ c after. ground (arith, push_new-visited visited queue (next node) c, closed c),
            )
          ]
        ]
      ]

  -- At the end all that was reached is done.
  search-Closed :
      (fuel : ℕ) (files : List F) (visited queue : List BuildAlias) (out : List F)
      → Progress files visited queue
      → search nodes file_of next fuel files visited queue ≡ some (ok out)
      → (seen : List BuildAlias) × Progress out seen []
  unfolding search
  search-Closed zero files visited queue out p h = cc
  search-Closed (suc fuel) files visited [] out p h = (visited, ground (arith, p))
  search-Closed (suc fuel) files visited (a ∷ queue) out p h =
      elim (Option-cases (find_node nodes a)) [
        | inl missing ↦ cc
        | inr (node, found) ↦
            let q = push_new visited queue (next node) in
            search-Closed fuel (add_file files (file_of node.buildable)) q.0 q.1 out
              (Progress-step files visited queue a node found p) (ground (arith, found))
      ]

  Reachable-Closed :
      (files : List F) (seen : List BuildAlias)
      → Progress files seen []
      → (a : BuildAlias) → Reachable nodes next roots a
      → (elem a roots || elem a seen) ≡ true
  Reachable-Closed files seen p a (root _ h) = ground arith
  Reachable-Closed files seen p b (step a _ node r found h) =
      elim (p a (Reachable-Closed files seen p a r)) [
        | inl impossible ↦ cc
        | inr (node', found', _, closed) ↦
            let same : node ≡ node' = ground (arith, found, found') in
            ground (arith, closed b (rw same at h))
      ]

  -- The answer that is asked for: exactly the files of the nodes that are reached, or the error that
  -- an alias which is reached has no node.
  abbrev pub IsAnswer : Outcome (List F) → Type 0
  IsAnswer (ok files) = (f : F) → (elem f files ≡ true) ↔ HasFile f
  IsAnswer (err x) =
      (a : BuildAlias) × (x ≡ not_found a)
      × Reachable nodes next roots a
      × (find_node nodes a ≡ none)

  pub search-IsAnswer :
      (fuel : ℕ) (out : Outcome (List F))
      → search nodes file_of next fuel [] [] roots ≡ some out
      → IsAnswer out
  search-IsAnswer fuel (ok files) h =
      let (seen, done) = search-Closed fuel [] [] roots files (λ a r. inl (ground arith)) h in
      λ f. (
        search-HasFile fuel [] [] roots files (λ a r. root a r) (λ f e. cc) h f,
        λ (a, node, r, found, is_file). elim (done a (Reachable-Closed files seen done a r)) [
          | inl impossible ↦ cc
          | inr (node', found', has_file, _) ↦
              let same : node ≡ node' = ground (arith, found, found') in
              has_file f (rw same at is_file)
        ],
      )
  search-IsAnswer fuel (err x) h = search-missing fuel [] [] roots x (λ a r. root a r) h
