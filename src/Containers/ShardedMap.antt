-- ===== src/Containers/ShardedMap.antt =====
-- `SharedMapT` and `ShardedMapT` of internal/base/Containers.go. A `sync.Map` is an association
-- list: the program never relies on the order of its entries. The hash of a key is a parameter.
use native.Mathlib.Nat.{mod-lt}
use ppb.Prelude.{
  ℕ, ◌%◌, ◌<◌, ◌≡◌, Bool, true, false, Option, none, some, List, [], ◌∷◌, map, arith, if◌then◌else◌,
  Comparable, ◌==◌, ==_iff, length, get_or, set, length-set, get_or-set_self, get_or-set_ne,
}

-- What `FindOrAdd` returns, by what `Get` finds.
abbrev pub found_or : {V : Type 0} → V → Option V → V × Bool
found_or value none = (value, false)
found_or value (some actual) = (actual, true)

-- `SharedMapT`
module _ {K V : Type 0} ⦃e : Comparable K⦄ where
  -- `Get`
  unfoldable pub shared_get : List (K × V) → K → Option V
  shared_get [] key = none
  shared_get ((k, v) ∷ intern) key = if k == key then some v else shared_get intern key

  -- `Delete`
  unfoldable pub shared_delete : List (K × V) → K → List (K × V)
  shared_delete [] key = []
  shared_delete ((k, v) ∷ intern) key =
      let rest = shared_delete intern key in if k == key then rest else (k, v) ∷ rest

  -- `Add`: stores the value, whether or not the key is there.
  unfoldable pub shared_add : List (K × V) → K → V → List (K × V)
  unfolding shared_delete
  shared_add intern key value = (key, value) ∷ shared_delete intern key

  -- `FindOrAdd`: the value that is there, or the given one, which is then stored.
  unfoldable pub shared_find_or_add : List (K × V) → K → V → List (K × V) × (V × Bool)
  unfolding shared_get shared_add
  shared_find_or_add intern key value = elim (shared_get intern key) [
    | some actual ↦ (intern, (actual, true))
    | none ↦ (shared_add intern key value, (value, false))
  ]

  pub shared_get-delete :
      (intern : List (K × V)) (key k : K)
      → shared_get (shared_delete intern key) k ≡ (if key == k then none else shared_get intern k)
  unfolding shared_get shared_delete
  shared_get-delete [] key k = ground arith
  shared_get-delete ((j, v) ∷ intern) key k =
      ground (arith, shared_get-delete intern key k, ==_iff j key, ==_iff j k, ==_iff key k)

  pub shared_get-add :
      (intern : List (K × V)) (key k : K) (value : V)
      → shared_get (shared_add intern key value) k
        ≡ (if key == k then some value else shared_get intern k)
  unfolding shared_add shared_get
  shared_get-add intern key k value = ground (arith, shared_get-delete intern key k)

  pub shared_get-find_or_add :
      (intern : List (K × V)) (key k : K) (value : V)
      → shared_get (shared_find_or_add intern key value).0 k
        ≡ (if key == k then some (shared_find_or_add intern key value).1.0 else shared_get intern k)
  unfolding shared_find_or_add
  shared_get-find_or_add intern key k value =
      ground (arith, shared_get-add intern key k value, ==_iff key k)

  pub find_or_add-found :
      (intern : List (K × V)) (key : K) (value : V)
      → (shared_find_or_add intern key value).1 ≡ found_or value (shared_get intern key)
  unfolding shared_find_or_add
  find_or_add-found intern key value = ground arith

-- `ShardedMapT`
module _ {K V : Type 0} ⦃e : Comparable K⦄ (hash : K → ℕ) where
  -- `getShard`: `key.GetHashValue(x.basis) % uint64(len(x.shards))`.
  abbrev shard_index : List (List (K × V)) → K → ℕ
  shard_index shards key = hash key % length shards

  unfoldable pub get : List (List (K × V)) → K → Option V
  unfolding shared_get
  get shards key = shared_get (get_or shards (shard_index shards key) []) key

  -- The shard is changed in place.
  update_shard : List (List (K × V)) → K → (List (K × V) → List (K × V)) → List (List (K × V))
  update_shard shards key f =
      set shards (shard_index shards key) (f (get_or shards (shard_index shards key) []))

  unfoldable pub add : List (List (K × V)) → K → V → List (List (K × V))
  unfolding update_shard shared_add
  add shards key value = update_shard shards key (λ intern. shared_add intern key value)

  unfoldable pub delete : List (List (K × V)) → K → List (List (K × V))
  unfolding update_shard shared_delete
  delete shards key = update_shard shards key (λ intern. shared_delete intern key)

  unfoldable pub find_or_add : List (List (K × V)) → K → V → List (List (K × V)) × (V × Bool)
  unfolding update_shard shared_find_or_add
  find_or_add shards key value =
      let found = shared_find_or_add (get_or shards (shard_index shards key) []) key value in
      (update_shard shards key (λ _. found.0), found.1)

  -- `Clear`: every shard is emptied.
  unfoldable pub clear : List (List (K × V)) → List (List (K × V))
  clear shards = map (λ _. []) shards

  module _ (shards : List (List (K × V))) (some_shards : 0 < length shards) where
    -- An update that changes the view of one key in its shard changes the view of the map so.
    get-update_shard :
        (key k : K) (f : List (K × V) → List (K × V)) (r : Option V)
        → shared_get (f (get_or shards (shard_index shards key) [])) k
          ≡ (if key == k then r else shared_get (get_or shards (shard_index shards key) []) k)
        → get (update_shard shards key f) k ≡ (if key == k then r else get shards k)
    unfolding get update_shard
    get-update_shard key k f r h = ground (
      arith,
      length-set shards (shard_index shards key) changed,
      get_or-set_self shards (shard_index shards key) changed [],
      get_or-set_ne shards (shard_index shards key) (shard_index shards k) changed [],
      mod-lt (hash key) some_shards,
      h,
      ==_iff key k,
    )
      where
        changed : List (K × V)
        changed = f (get_or shards (shard_index shards key) [])

    -- `Add` changes what `Get` finds at its key, and nothing else.
    pub get-add :
        (key k : K) (value : V)
        → get (add shards key value) k ≡ (if key == k then some value else get shards k)
    unfolding add
    get-add key k value =
        get-update_shard key k (λ intern. shared_add intern key value) (some value)
          (shared_get-add _ key k value)

    -- After `Delete` the key is not found, and the other keys are found as before.
    pub get-delete :
        (key k : K) → get (delete shards key) k ≡ (if key == k then none else get shards k)
    unfolding delete
    get-delete key k =
        get-update_shard key k (λ intern. shared_delete intern key) none (shared_get-delete _ key k)

    -- `FindOrAdd` answers what is there, or stores the given value; it changes no other key.
    pub find_or_add_lem :
        (key k : K) (value : V)
        → ((find_or_add shards key value).1 ≡ found_or value (get shards key))
          × (get (find_or_add shards key value).0 k
              ≡ (if key == k then some (find_or_add shards key value).1.0 else get shards k))
    unfolding find_or_add
    find_or_add_lem key k value = (
      unfold get in find_or_add-found (get_or shards (shard_index shards key) []) key value,
      get-update_shard key k
          (λ _. (shared_find_or_add (get_or shards (shard_index shards key) []) key value).0) _
          (shared_get-find_or_add _ key k value),
    )
