-- ===== src/BuildNode/SavedRuns.antt =====
-- A concrete node that is saved and loaded. Its buildable is one byte.
use ppb.Prelude.{
  ℕ, ◌≡◌, refl, ◌++◌, some, [], ◌∷◌, false, arith, replicate, list_comparable, nat_comparable,
}
use ppb.Archive.Bytes.{put_uint}
use ppb.Archive.Codec.{Written, Reader, indices}
use ppb.Archive.Slices.{fixed, pair, via, many, write_each, fixed-RoundTrips}
use ppb.Archive.Text.{string_index, write_string}
use ppb.BuildNode.Node.{BuildNode}
use ppb.BuildNode.Saved.{alias_codec, stamp_codec, dependency_codec, dependencies_codec, node_codec}
use ppb.BuildNode.Saved.RoundTrip.{NodeFits, reread}
use ppb.BuildNode.Saved.Total.{read-write_node}

abbrev sample : BuildNode ℕ
sample = record {
  alias = record { domain = 117 ∷ []; name = 99 ∷ [] };
  buildable = 42;
  stamp = record { mod_time = 1000; content = 258 };
  static =
      record {
        alias = record { domain = 102 ∷ []; name = 97 ∷ [] };
        stamp = record { mod_time = 0; content = 0 };
      }
      ∷ [];
  dynamic = [];
  output_files = [];
  output_nodes = record { domain = 102 ∷ []; name = 99 ∷ [] } ∷ [];
}

abbrev saved : Written
saved = record {
  bytes =
      -- the alias, the buildable, the stamp
      (1 ∷ 0 ∷ 0 ∷ 0 ∷ 117 ∷ 1 ∷ 0 ∷ 0 ∷ 0 ∷ 99 ∷ 42 ∷ 232 ∷ 3 ∷ 0 ∷ 0 ∷ 0 ∷ 0 ∷ 0 ∷ 0 ∷ 2 ∷ 1 ∷ [])
      ++ replicate 30 0
      -- a static dependency, with the zero time
      ++ (1 ∷ 0 ∷ 0 ∷ 0 ∷ 1 ∷ 0 ∷ 0 ∷ 0 ∷ 102 ∷ 1 ∷ 0 ∷ 0 ∷ 0 ∷ 97 ∷ [])
      ++ (0 ∷ 40 ∷ 211 ∷ 237 ∷ 124 ∷ 199 ∷ 255 ∷ 255 ∷ [])
      ++ replicate 32 0
      -- no others, and an output node of strings that were written before
      ++ replicate 8 0
      ++ (1 ∷ 0 ∷ 0 ∷ 0 ∷ 253 ∷ 255 ∷ 255 ∷ 255 ∷ 254 ∷ 255 ∷ 255 ∷ 255 ∷ []);
  string_to_index = indices 0 ((117 ∷ []) ∷ (99 ∷ []) ∷ (102 ∷ []) ∷ (97 ∷ []) ∷ []);
}

write_sample : (node_codec false (fixed 1)).write (indices 0 []) sample ≡ some saved
unfolding node_codec dependencies_codec dependency_codec alias_codec stamp_codec fixed pair via many
    write_each write_string string_index put_uint
write_sample = refl

sample-NodeFits : NodeFits sample
sample-NodeFits = record {
  alias_fits = (omega arith, omega arith);
  stamp_fits = (omega arith, omega arith);
  static_fits = (omega arith, ((omega arith, omega arith), (omega arith, omega arith), tt));
  dynamic_fits = (omega arith, tt);
  files_fit = (omega arith, tt);
  nodes_fit = (omega arith, ((omega arith, omega arith), tt));
}

read-write_node_example :
    (r : Reader) × ((node_codec false (fixed 1)).read
        (record { input = saved.bytes ++ (7 ∷ []); index_to_string = [] })
      ≡ some (reread sample, r))
    × (r.input ≡ 7 ∷ [])
    × (saved.string_to_index ≡ indices 0 r.index_to_string)
read-write_node_example =
    read-write_node false (fixed 1) sample [] saved (7 ∷ []) sample-NodeFits
      (fixed-RoundTrips 1 42 (omega arith)) write_sample (omega arith)
