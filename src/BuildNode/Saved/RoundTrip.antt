-- ===== src/BuildNode/Saved/RoundTrip.antt =====
-- A node that was saved can be loaded.
use ppb.Prelude.{Bool, List, [], ◌∷◌, ◌≤◌, ◌<◌, length, arith}
use ppb.Archive.Bytes.{limit}
use ppb.Archive.Codec.{Codec, ReadsAs, RoundTrips, word32}
use ppb.Archive.Slices.{fixed, pair, many, fixed-RoundTrips, pair-ReadsAs, via-ReadsAs}
use ppb.Archive.Slices.RoundTrip.{AllReadAs, many-ReadsAs}
use ppb.Archive.Text.{string, string-RoundTrips}
use ppb.BuildNode.Dependencies.{BuildAlias, BuildStamp, BuildDependency, BuildDependencies}
use ppb.BuildNode.Node.{BuildNode}
use ppb.BuildNode.Saved.{
  alias_codec, stamp_codec, dependency_codec, dependencies_codec, node_codec, node_of, fields_of,
  time_bits,
}

-- The strings fit the page of the archive.
abbrev pub AliasFits : BuildAlias → Type 0
AliasFits a = (length a.domain ≤ 4096) × (length a.name ≤ 4096)

-- The time has 64 bits, the fingerprint has 256.
abbrev pub StampFits : BuildStamp → Type 0
StampFits s = (s.mod_time < limit 8) × (s.content < limit 32)

abbrev pub AliasesFit : List BuildAlias → Type 0
AliasesFit [] = Unit
AliasesFit (a ∷ aliases) = AliasFits a × AliasesFit aliases

abbrev pub DependenciesFit : BuildDependencies → Type 0
DependenciesFit [] = Unit
DependenciesFit (d ∷ deps) = AliasFits d.alias × StampFits d.stamp × DependenciesFit deps

pub record NodeFits {B : Type 0} (node : BuildNode B) : Type 0 where
  pub alias_fits : AliasFits node.alias
  pub stamp_fits : StampFits node.stamp
  pub static_fits : (length node.static < word32) × DependenciesFit node.static
  pub dynamic_fits : (length node.dynamic < word32) × DependenciesFit node.dynamic
  pub files_fit : (length node.output_files < word32) × DependenciesFit node.output_files
  pub nodes_fit : (length node.output_nodes < word32) × AliasesFit node.output_nodes

-- What is read after a stamp was written: the local time of the same instant. `time.Time{}` is read as
-- another value; any other time is the same.
abbrev pub reread_stamp : BuildStamp → BuildStamp
reread_stamp s = record { mod_time = time_bits s.mod_time; content = s.content }

abbrev pub reread_dependency : BuildDependency → BuildDependency
reread_dependency d = record { alias = d.alias; stamp = reread_stamp d.stamp }

abbrev pub reread_all : BuildDependencies → BuildDependencies
reread_all [] = []
reread_all (d ∷ deps) = reread_dependency d ∷ reread_all deps

-- The node with each of its stamps as it is read.
abbrev pub reread : {B : Type 0} → BuildNode B → BuildNode B
reread node = record {
  alias = node.alias;
  buildable = node.buildable;
  stamp = reread_stamp node.stamp;
  static = reread_all node.static;
  dynamic = reread_all node.dynamic;
  output_files = reread_all node.output_files;
  output_nodes = node.output_nodes;
}

alias-RoundTrips : (debug : Bool) (a : BuildAlias) → AliasFits a → RoundTrips (alias_codec debug) a
unfolding alias_codec
alias-RoundTrips debug a h =
    via-ReadsAs (λ p. record { domain = p.0; name = p.1 }) (λ a. (a.domain, a.name))
      (pair (string debug) (string debug)) a
      (pair-ReadsAs (string debug) (string debug) a.domain a.name
        (string-RoundTrips debug a.domain h.0) (string-RoundTrips debug a.name h.1))

stamp-ReadsAs : (s : BuildStamp) → StampFits s → ReadsAs stamp_codec s (reread_stamp s)
unfolding stamp_codec
stamp-ReadsAs s h =
    via-ReadsAs (λ p. record { mod_time = p.0; content = p.1 })
      (λ s. (time_bits s.mod_time, s.content)) (pair (fixed 8) (fixed 32)) s
      (pair-ReadsAs (fixed 8) (fixed 32) (time_bits s.mod_time) s.content
        (fixed-RoundTrips 8 (time_bits s.mod_time) (ground arith))
        (fixed-RoundTrips 32 s.content h.1))

dependency-ReadsAs :
    (debug : Bool) (d : BuildDependency)
    → AliasFits d.alias
    → StampFits d.stamp
    → ReadsAs (dependency_codec debug) d (reread_dependency d)
unfolding dependency_codec
dependency-ReadsAs debug d h k =
    via-ReadsAs (λ p. record { alias = p.0; stamp = p.1 }) (λ d. (d.alias, d.stamp))
      (pair (alias_codec debug) stamp_codec) d
      (pair-ReadsAs (alias_codec debug) stamp_codec d.alias d.stamp
        (alias-RoundTrips debug d.alias h) (stamp-ReadsAs d.stamp k))

all_dependencies :
    (debug : Bool) (deps : BuildDependencies)
    → DependenciesFit deps
    → AllReadAs (dependency_codec debug) deps (reread_all deps)
all_dependencies debug [] h = tt
all_dependencies debug (d ∷ deps) h =
    (dependency-ReadsAs debug d h.0 h.1, all_dependencies debug deps h.2)

all_aliases :
    (debug : Bool) (aliases : List BuildAlias)
    → AliasesFit aliases
    → AllReadAs (alias_codec debug) aliases aliases
all_aliases debug [] h = tt
all_aliases debug (a ∷ aliases) h = (alias-RoundTrips debug a h.0, all_aliases debug aliases h.1)

dependencies-ReadsAs :
    (debug : Bool) (deps : BuildDependencies)
    → (length deps < word32) × DependenciesFit deps
    → ReadsAs (dependencies_codec debug) deps (reread_all deps)
unfolding dependencies_codec
dependencies-ReadsAs debug deps h =
    many-ReadsAs debug (dependency_codec debug) deps (reread_all deps) h.0
      (all_dependencies debug deps h.1)

-- Whatever the writer takes of a node within the bounds is read as the node with its stamps as they
-- are read, whatever follows it, if its buildable is read back, and the two archives agree on the
-- strings afterwards.
pub node-ReadsAs :
    {B : Type 0} (debug : Bool) (external : Codec B) (node : BuildNode B)
    → NodeFits node
    → RoundTrips external node.buildable
    → ReadsAs (node_codec debug external) node (reread node)
unfolding node_codec
node-ReadsAs debug external node h b =
    let deps = dependencies_codec debug in
    let last = many debug (alias_codec debug) in
    via-ReadsAs node_of fields_of
      (pair (alias_codec debug)
        (pair external (pair stamp_codec (pair deps (pair deps (pair deps last))))))
      node
      (pair-ReadsAs _ _ _ _ (alias-RoundTrips debug node.alias h.alias_fits) (
        pair-ReadsAs _ _ _ _ b (
          pair-ReadsAs _ _ _ _ (stamp-ReadsAs node.stamp h.stamp_fits) (
            pair-ReadsAs _ _ _ _ (dependencies-ReadsAs debug node.static h.static_fits) (
              pair-ReadsAs _ _ _ _ (dependencies-ReadsAs debug node.dynamic h.dynamic_fits) (
                pair-ReadsAs _ _ _ _ (dependencies-ReadsAs debug node.output_files h.files_fit) (
                  many-ReadsAs debug (alias_codec debug) node.output_nodes node.output_nodes
                    h.nodes_fit.0 (all_aliases debug node.output_nodes h.nodes_fit.1))))))))
