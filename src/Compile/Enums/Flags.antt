-- ===== src/Compile/Enums/Flags.antt =====
-- The enumerations of compile/Enums.go as the values of sets of flags: `CompilerFeatureFlags` and
-- `TagFlags`.
use ppb.Prelude.{◌≡◌, refl, true}
use ppb.EnumSet.{EnumValue}
use ppb.EnumSet.Text.RoundTrip.{IsParsed, plain}
use ppb.Compile.Enums.CompilerFeature
use ppb.Compile.Enums.CompilerFeature.{
  CompilerFeature, compiler_allow_caching, compiler_allow_distribution, compiler_allow_responsefile,
  compiler_allow_sourcemapping, compiler_allow_editandcontinue,
}
use ppb.Compile.Enums.TagType
use ppb.Compile.Enums.TagType.{
  TagType, tag_debug, tag_ndebug, tag_profiling, tag_shipping, tag_devel, tag_test, tag_fastdebug,
}

abbrev pub compiler_feature : EnumValue CompilerFeature
compiler_feature = record {
  ord = CompilerFeature.ord;
  from_ord = CompilerFeature.from_ord;
  text = CompilerFeature.string;
  set = CompilerFeature.set;
}

compiler_feature_plain : (x : CompilerFeature) → plain (CompilerFeature.string x) ≡ true
unfolding CompilerFeature.string
compiler_feature_plain compiler_allow_caching = refl
compiler_feature_plain compiler_allow_distribution = refl
compiler_feature_plain compiler_allow_responsefile = refl
compiler_feature_plain compiler_allow_sourcemapping = refl
compiler_feature_plain compiler_allow_editandcontinue = refl

pub compiler_feature-IsParsed : IsParsed compiler_feature
compiler_feature-IsParsed = record {
  small = CompilerFeature.ord_lt;
  from_ord-ord = CompilerFeature.from_ord-ord;
  set-text = CompilerFeature.reads.set-string;
  text_plain = compiler_feature_plain;
}

abbrev pub tag : EnumValue TagType
tag = record {
  ord = TagType.ord;
  from_ord = TagType.from_ord;
  text = TagType.string;
  set = TagType.set;
}

tag_plain : (x : TagType) → plain (TagType.string x) ≡ true
unfolding TagType.string
tag_plain tag_debug = refl
tag_plain tag_ndebug = refl
tag_plain tag_profiling = refl
tag_plain tag_shipping = refl
tag_plain tag_devel = refl
tag_plain tag_test = refl
tag_plain tag_fastdebug = refl

pub tag-IsParsed : IsParsed tag
tag-IsParsed = record {
  small = TagType.ord_lt;
  from_ord-ord = TagType.from_ord-ord;
  set-text = TagType.reads.set-string;
  text_plain = tag_plain;
}
