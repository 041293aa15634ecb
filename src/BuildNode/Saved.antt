-- ===== src/BuildNode/Saved.antt =====
-- The `Serialize` methods of `BuildAlias` (utils/BuildAlias.go), `BuildStamp`
-- (utils/BuildExecution.go), `BuildDependency`, `BuildDependencies` and `buildNode`
-- (utils/BuildNode.go).
pub mod RoundTrip
pub mod Total
use ppb.Prelude.{ℕ, Bool, List, ◌*◌, ◌%◌, if◌then◌else◌, eqb}
use ppb.Archive.Codec.{Codec}
use ppb.Archive.Slices.{fixed, pair, via, many}
use ppb.Archive.Text.{string}
use ppb.BuildNode.Dependencies.{BuildAlias, BuildStamp, BuildDependency, BuildDependencies}
use ppb.BuildNode.Node.{BuildNode}

unfoldable pub alias_codec : Bool → Codec BuildAlias
alias_codec debug =
    via (λ p. record { domain = p.0; name = p.1 }) (λ a. (a.domain, a.name))
      (pair (string debug) (string debug))

-- The bits of `time.Time{}.UnixMilli()`, -62135596800000: the time of the zero stamp.
abbrev pub zero_time : ℕ
zero_time = 18446681938112751616

-- `uint64(value.UnixMilli())`. 0 stands for `time.Time{}`, and each other number for the local time
-- that `time.UnixMilli` makes of these bits, which is how the times of stamps are made; none is the
-- beginning of 1970. So the bits of `time.Time{}` are read as `time.UnixMilli(-62135596800000)`, which
-- `==` of Go tells from it by the location.
abbrev pub time_bits : ℕ → ℕ
time_bits time = if eqb time 0 then zero_time else time

-- The time on 8 bytes, and the 32 bytes of the fingerprint.
unfoldable pub stamp_codec : Codec BuildStamp
stamp_codec =
    via (λ p. record { mod_time = p.0; content = p.1 }) (λ s. (time_bits s.mod_time, s.content))
      (pair (fixed 8) (fixed 32))

unfoldable pub dependency_codec : Bool → Codec BuildDependency
unfolding alias_codec stamp_codec
dependency_codec debug =
    via (λ p. record { alias = p.0; stamp = p.1 }) (λ d. (d.alias, d.stamp))
      (pair (alias_codec debug) stamp_codec)

unfoldable pub dependencies_codec : Bool → Codec BuildDependencies
unfolding dependency_codec
dependencies_codec debug = many debug (dependency_codec debug)

-- The fields of a node, in the order in which they are written.
abbrev pub SavedNode : Type 0 → Type 0
SavedNode B =
    BuildAlias
    × (B
        × (BuildStamp
            × (BuildDependencies × (BuildDependencies × (BuildDependencies × List BuildAlias)))))

module _ {B : Type 0} where
  abbrev pub node_of : SavedNode B → BuildNode B
  node_of (a, (b, (s, (static, (dynamic, (files, nodes)))))) = record {
    alias = a;
    buildable = b;
    stamp = s;
    static = static;
    dynamic = dynamic;
    output_files = files;
    output_nodes = nodes;
  }

  abbrev pub fields_of : BuildNode B → SavedNode B
  fields_of n =
      (n.alias, (n.buildable, (n.stamp, (n.static, (n.dynamic, (n.output_files, n.output_nodes))))))

  -- `buildNode.Serialize`. `external` is `SerializeExternal`, on the registered types of buildables.
  unfoldable pub node_codec : Bool → Codec B → Codec (BuildNode B)
  unfolding alias_codec stamp_codec dependencies_codec
  node_codec debug external =
      let deps = dependencies_codec debug in
      via node_of fields_of (
        pair (alias_codec debug) (
          pair external (
            pair stamp_codec (pair deps (pair deps (pair deps (many debug (alias_codec debug))))))))
