-- ===== src/BuildExecution/Many.antt =====
-- `buildMany` of utils/BuildExecution.go: the builds of several nodes are launched and joined. What
-- `nodes` gives for an index, and what the future of a node is joined to, are parameters.
use ppb.Prelude.{
  ℕ, zero, suc, ◌+◌, ◌≡◌, refl, ap, ◌∙◌, ◌↔◌, Bool, true, false, ◌&&◌, Option, none, some, List, [],
  ◌∷◌, arith,
}
use ppb.Futures.Joined.{is_none, all_succeed, parallel_join_lem}
use ppb.Futures.{Got, value, failed, called, parallel_join}

module _ {E Node R : Type 0} (nodes : ℕ → Got E Node) (launch_build : Node → Got E R) where
  abbrev pub cons_future : Got E R → Got E (List (Got E R)) → Got E (List (Got E R))
  cons_future future (value futures) = value (future ∷ futures)
  cons_future future (failed e) = failed e

  -- The futures of the nodes from an index on, or the error of the first node that is not found.
  unfoldable pub launch_all : ℕ → ℕ → Got E (List (Got E R))
  launch_all i zero = value []
  launch_all i (suc n) = elim (nodes i) [
    | failed e ↦ failed e
    | value node ↦ cons_future (launch_build node) (launch_all (i + 1) n)
  ]

  module _ (on_results : ℕ → R → Option E) where
    abbrev pub on_result : Got E R → List (ℕ × R) × Option E
    on_result (failed e) = ([], some e)
    on_result (value r) = ((0, r) ∷ [], on_results 0 r)

    abbrev pub build_one : Got E Node → List (ℕ × R) × Option E
    build_one (failed e) = ([], some e)
    build_one (value node) = on_result (launch_build node)

    abbrev pub join_all : Got E (List (Got E R)) → List (ℕ × R) × Option E
    join_all (failed e) = ([], some e)
    join_all (value futures) = parallel_join on_results 0 none futures

    -- The results that `onResults` is called on, with their indices, and the error.
    unfoldable pub build_many : ℕ → List (ℕ × R) × Option E
    unfolding launch_all parallel_join
    build_many zero = ([], none)
    build_many (suc zero) = build_one (nodes 0)
    build_many (suc (suc n)) = join_all (launch_all 0 (suc (suc n)))

    one : (future : Got E R) → on_result future ≡ parallel_join on_results 0 none (future ∷ [])
    unfolding parallel_join
    one (failed e) = refl
    one (value r) = stored (on_results 0 r)
      where
        stored :
            (error : Option E)
            → ((0, r) ∷ [], error) ≡ (elim error [
              | some e ↦ ((0, r) ∷ [], some e)
              | none ↦ called {E = E} (0, r) ([], none)
            ])
        stored none = refl
        stored (some e) = refl

    build_many-join_all : (n : ℕ) → build_many n ≡ join_all (launch_all 0 n)
    unfolding build_many
    build_many-join_all zero = refl
    build_many-join_all (suc zero) = on_node (nodes 0)
      where
        on_node :
            (found : Got E Node)
            → build_one found
              ≡ join_all (elim found [
                | failed e ↦ failed e
                | value node ↦ cons_future (launch_build node) (value [])
              ])
        on_node (failed e) = refl
        on_node (value node) = one (launch_build node)
    build_many-join_all (suc (suc n)) = refl

    abbrev pub is_built : ℕ → Got E R → Bool
    is_built i (failed e) = false
    is_built i (value r) = is_none (on_results i r)

    abbrev pub node_is_built : ℕ → Got E Node → Bool
    node_is_built i (failed e) = false
    node_is_built i (value node) = is_built i (launch_build node)

    -- Whether each of the nodes from an index on is found and built, and its result taken.
    abbrev pub all_built : ℕ → ℕ → Bool
    all_built i zero = true
    all_built i (suc n) = node_is_built i (nodes i) && all_built (i + 1) n

    abbrev all_joined : ℕ → Got E (List (Got E R)) → Bool
    all_joined i (failed e) = false
    all_joined i (value futures) = all_succeed on_results i futures

    all_joined-cons :
        (i : ℕ) (future : Got E R) (rest : Got E (List (Got E R)))
        → all_joined i (cons_future future rest) ≡ (is_built i future && all_joined (i + 1) rest)
    all_joined-cons i (failed e) (failed d) = refl
    all_joined-cons i (failed e) (value futures) = refl
    all_joined-cons i (value r) (failed d) = ground arith
    all_joined-cons i (value r) (value futures) = taken (on_results i r)
      where
        taken :
            (error : Option E)
            → (elim error [ some e ↦ false | none ↦ all_succeed on_results (i + 1) futures ])
              ≡ (is_none error && all_succeed on_results (i + 1) futures)
        taken none = refl
        taken (some e) = refl

    all_joined-node :
        (i n : ℕ) (found : Got E Node)
        → all_joined (i + 1) (launch_all (i + 1) n) ≡ all_built (i + 1) n
        → all_joined i (elim found [
          | failed e ↦ failed e
          | value node ↦ cons_future (launch_build node) (launch_all (i + 1) n)
        ])
          ≡ (node_is_built i found && all_built (i + 1) n)
    all_joined-node i n (failed e) h = refl
    all_joined-node i n (value node) h =
        all_joined-cons i (launch_build node) (launch_all (i + 1) n)
        ∙ ap (λ (rest : Bool). is_built i (launch_build node) && rest) h

    all_joined-launch_all : (i n : ℕ) → all_joined i (launch_all i n) ≡ all_built i n
    unfolding launch_all
    all_joined-launch_all i zero = refl
    all_joined-launch_all i (suc n) =
        all_joined-node i n (nodes i) (all_joined-launch_all (i + 1) n)

    no_error :
        (launched : Got E (List (Got E R)))
        → ((join_all launched).1 ≡ none) ↔ (all_joined 0 launched ≡ true)
    no_error (failed e) = ground arith
    no_error (value futures) = (parallel_join_lem on_results futures).1

    -- The error of the first of the nodes from an index on that is not found.
    abbrev pub first_missing : ℕ → ℕ → Option E
    first_missing i zero = none
    first_missing i (suc n) = elim (nodes i) [
      | failed e ↦ some e
      | value node ↦ first_missing (i + 1) n
    ]

    -- The futures of the nodes from an index on, up to the first that is not found.
    abbrev pub futures_from : ℕ → ℕ → List (Got E R)
    futures_from i zero = []
    futures_from i (suc n) = elim (nodes i) [
      | failed e ↦ []
      | value node ↦ launch_build node ∷ futures_from (i + 1) n
    ]

    launched_as : (missing : Option E) (futures : List (Got E R)) → Got E (List (Got E R))
    launched_as none futures = value futures
    launched_as (some e) futures = failed e

    cons-launched_as :
        (future : Got E R) (missing : Option E) (futures : List (Got E R))
        → cons_future future (launched_as missing futures) ≡ launched_as missing (future ∷ futures)
    unfolding launched_as
    cons-launched_as future none futures = refl
    cons-launched_as future (some e) futures = refl

    launch_all_lem : (i n : ℕ) → launch_all i n ≡ launched_as (first_missing i n) (futures_from i n)
    unfolding launch_all launched_as
    launch_all_lem i zero = refl
    launch_all_lem i (suc n) = at_node (nodes i) (launch_all_lem (i + 1) n)
      where
        at_node :
            (found : Got E Node)
            → launch_all (i + 1) n ≡ launched_as (first_missing (i + 1) n) (futures_from (i + 1) n)
            → (elim found [
              | failed e ↦ failed e
              | value node ↦ cons_future (launch_build node) (launch_all (i + 1) n)
            ])
              ≡ launched_as
                  (elim found [ failed e ↦ some e | value node ↦ first_missing (i + 1) n ])
                  (elim found [
                    | failed e ↦ []
                    | value node ↦ launch_build node ∷ futures_from (i + 1) n
                  ])
        at_node (failed e) h = refl
        at_node (value node) h =
            ap (cons_future (launch_build node)) h
            ∙ cons-launched_as (launch_build node) (first_missing (i + 1) n)
                (futures_from (i + 1) n)

    join_all-launched_as :
        (missing : Option E) (futures : List (Got E R))
        → join_all (launched_as missing futures) ≡ (elim missing [
          | some e ↦ ([], some e)
          | none ↦ parallel_join on_results 0 none futures
        ])
    unfolding launched_as
    join_all-launched_as none futures = refl
    join_all-launched_as (some e) futures = refl

    -- For any number of nodes, 0 and 1 with their own branches included: if some node is not found,
    -- the error of the first such node is returned, and `onResults` is called on nothing; otherwise
    -- the result is that of `ParallelJoin` on the futures of all nodes in their order. There is no
    -- error exactly when each node is found, its build succeeds, and its result is taken without an
    -- error.
    pub build_many_lem :
        (n : ℕ)
        → (build_many n ≡ (elim (first_missing 0 n) [
          | some e ↦ ([], some e)
          | none ↦ parallel_join on_results 0 none (futures_from 0 n)
        ]))
          × (((build_many n).1 ≡ none) ↔ (all_built 0 n ≡ true))
    build_many_lem n = (
      build_many-join_all n
          ∙ ap join_all (launch_all_lem 0 n)
          ∙ join_all-launched_as (first_missing 0 n) (futures_from 0 n),
      rw (build_many-join_all n)
          (ground (arith, no_error (launch_all 0 n), all_joined-launch_all 0 n)),
    )
