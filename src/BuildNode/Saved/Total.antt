-- ===== src/BuildNode/Saved/Total.antt =====
-- A release build saves every node, and loads it again.
use ppb.Prelude.{ℕ, Bool, false, List, [], ◌∷◌, ◌++◌, ◌≤◌, ◌≡◌, some, length, Bytes}
use ppb.Archive.Codec.{Codec, Entry, RoundTrips, ReadsAs-read, Writes, Written, Reader, indices}
use ppb.Archive.Slices.{fixed, via}
use ppb.Archive.Slices.Total.{AllWrite, fixed-Writes, pair-Writes, many-Writes}
use ppb.Archive.Text.{string, string-Writes}
use ppb.BuildNode.Dependencies.{BuildAlias, BuildStamp, BuildDependencies}
use ppb.BuildNode.Node.{BuildNode}
use ppb.BuildNode.Saved.{
  alias_codec, stamp_codec, dependency_codec, dependencies_codec, node_codec, time_bits,
}
use ppb.BuildNode.Saved.RoundTrip.{NodeFits, reread, node-ReadsAs}

alias-Writes : (a : BuildAlias) → Writes (alias_codec false) a
unfolding alias_codec via
alias-Writes a =
    pair-Writes (string false) (string false) a.domain a.name (string-Writes a.domain)
      (string-Writes a.name)

stamp-Writes : (s : BuildStamp) → Writes stamp_codec s
unfolding stamp_codec via
stamp-Writes s =
    pair-Writes (fixed 8) (fixed 32) (time_bits s.mod_time) s.content
      (fixed-Writes 8 (time_bits s.mod_time)) (fixed-Writes 32 s.content)

all_dependencies-Writes : (deps : BuildDependencies) → AllWrite (dependency_codec false) deps
unfolding dependency_codec via
all_dependencies-Writes [] = tt
all_dependencies-Writes (d ∷ deps) = (
  pair-Writes (alias_codec false) stamp_codec d.alias d.stamp (alias-Writes d.alias)
      (stamp-Writes d.stamp),
  all_dependencies-Writes deps,
)

all_aliases-Writes : (aliases : List BuildAlias) → AllWrite (alias_codec false) aliases
all_aliases-Writes [] = tt
all_aliases-Writes (a ∷ aliases) = (alias-Writes a, all_aliases-Writes aliases)

dependencies-Writes : (deps : BuildDependencies) → Writes (dependencies_codec false) deps
unfolding dependencies_codec
dependencies-Writes deps = many-Writes (dependency_codec false) deps (all_dependencies-Writes deps)

module _ {B : Type 0} where
  node-Writes :
      (external : Codec B) (node : BuildNode B)
      → Writes external node.buildable
      → Writes (node_codec false external) node
  unfolding node_codec via
  node-Writes external node b = pair-Writes _ _ _ _ (alias-Writes node.alias) (
      pair-Writes _ _ _ _ b (
        pair-Writes _ _ _ _ (stamp-Writes node.stamp) (
          pair-Writes _ _ _ _ (dependencies-Writes node.static) (
            pair-Writes _ _ _ _ (dependencies-Writes node.dynamic) (
              pair-Writes _ _ _ _ (dependencies-Writes node.output_files) (
                many-Writes (alias_codec false) node.output_nodes
                  (all_aliases-Writes node.output_nodes)))))))

  -- A release build writes every node whose buildable it can write, whatever strings it has recorded.
  pub write_node-returns :
      (external : Codec B) (node : BuildNode B) (table : List Entry)
      → Writes external node.buildable
      → (w : Written) × ((node_codec false external).write table node ≡ some w)
  write_node-returns external node table b = node-Writes external node b table

  -- Given a node within the bounds of the archive whose buildable can be read back, and what the
  -- writer wrote for it after the strings given, with no more than `2 ^ 31` strings recorded then:
  -- reading gives the node with its stamps as they are read, that is the same node but for the zero
  -- times, `time.Time{}`, which are read as local times; it leaves what follows, and the tables of the
  -- two archives agree again.
  pub read-write_node :
      (debug : Bool) (external : Codec B) (node : BuildNode B) (strings : List Bytes) (w : Written)
      (rest : List ℕ)
      → NodeFits node
      → RoundTrips external node.buildable
      → (node_codec debug external).write (indices 0 strings) node ≡ some w
      → length w.string_to_index ≤ 2147483648
      → (r : Reader) × ((node_codec debug external).read
            (record { input = w.bytes ++ rest; index_to_string = strings })
          ≡ some (reread node, r))
        × (r.input ≡ rest)
        × (w.string_to_index ≡ indices 0 r.index_to_string)
  read-write_node debug external node strings w rest h b p bound =
      ReadsAs-read (node_codec debug external) node (reread node)
        (node-ReadsAs debug external node h b) strings w rest p bound
