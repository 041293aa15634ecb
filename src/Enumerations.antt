-- ===== src/Enumerations.antt =====
-- The texts of the enumerations, all together.
use ppb.Switch.{to_upper, IsRead}
use ppb.Compile.Enums.CompilerFeature
use ppb.Compile.Enums.CppRttiType
use ppb.Compile.Enums.CppStdType
use ppb.Compile.Enums.DebugInfoType
use ppb.Compile.Enums.ExceptionType
use ppb.Compile.Enums.LinkType
use ppb.Compile.Enums.ModuleType
use ppb.Compile.Enums.PrecompiledHeaderType
use ppb.Compile.Enums.PayloadType
use ppb.Compile.Enums.OptimizationLevel
use ppb.Compile.Enums.SupportType
use ppb.Compile.Enums.RuntimeLibType
use ppb.Compile.Enums.SanitizerType
use ppb.Compile.Enums.TagType
use ppb.Compile.Enums.VisibilityType
use ppb.Compile.Enums.WarningLevel
use ppb.Action.OptionType
use ppb.Action.CacheModeType
use ppb.Cluster.PeerMode
use ppb.Utils.SourceControlState
use ppb.Utils.CommandArgumentFlag
use ppb.Utils.ProfilingMode
use ppb.Hal.Linux.CompilerType as LinuxCompilerType
use ppb.Hal.Linux.DumpRecordLayoutsType
use ppb.Hal.Linux.LlvmVersion
use ppb.Hal.Windows.CompilerType as WindowsCompilerType
use ppb.Hal.Windows.MsvcVersion
use ppb.Compression.CompressionLevel
use ppb.Compression.CompressionFormat

-- For each of the enumerations that the statement lists: `Set` takes the text of a value for it, and of
-- the ASCII inputs exactly those that are that text, once they are in upper case where `Set` ignores the
-- case.
enums-IsRead :
    IsRead to_upper CompilerFeature.string CompilerFeature.set
    × IsRead to_upper CppRttiType.string CppRttiType.set
    × IsRead to_upper CppStdType.string CppStdType.set
    × IsRead to_upper DebugInfoType.string DebugInfoType.set
    × IsRead to_upper ExceptionType.string ExceptionType.set
    × IsRead to_upper LinkType.string LinkType.set
    × IsRead to_upper ModuleType.string ModuleType.set
    × IsRead to_upper PrecompiledHeaderType.string PrecompiledHeaderType.set
    × IsRead to_upper PayloadType.string PayloadType.set
    × IsRead to_upper OptimizationLevel.string OptimizationLevel.set
    × IsRead to_upper SupportType.string SupportType.set
    × IsRead to_upper RuntimeLibType.string RuntimeLibType.set
    × IsRead to_upper SanitizerType.string SanitizerType.set
    × IsRead to_upper TagType.string TagType.set
    × IsRead to_upper VisibilityType.string VisibilityType.set
    × IsRead to_upper WarningLevel.string WarningLevel.set
    × IsRead to_upper OptionType.string OptionType.set
    × IsRead to_upper CacheModeType.string CacheModeType.set
    × IsRead to_upper PeerMode.string PeerMode.set
    × IsRead to_upper SourceControlState.string SourceControlState.set
    × IsRead to_upper CommandArgumentFlag.string CommandArgumentFlag.set
    × IsRead to_upper ProfilingMode.string ProfilingMode.set
    × IsRead to_upper LinuxCompilerType.string LinuxCompilerType.set
    × IsRead to_upper DumpRecordLayoutsType.string DumpRecordLayoutsType.set
    × IsRead (λ s. s) LlvmVersion.string LlvmVersion.set
    × IsRead to_upper WindowsCompilerType.string WindowsCompilerType.set
    × IsRead (λ s. s) MsvcVersion.string MsvcVersion.set
    × IsRead to_upper CompressionLevel.string CompressionLevel.set
    × IsRead to_upper CompressionFormat.string CompressionFormat.set
enums-IsRead = (
  CompilerFeature.reads, CppRttiType.reads, CppStdType.reads, DebugInfoType.reads,
  ExceptionType.reads, LinkType.reads, ModuleType.reads, PrecompiledHeaderType.reads,
  PayloadType.reads, OptimizationLevel.reads, SupportType.reads, RuntimeLibType.reads,
  SanitizerType.reads, TagType.reads, VisibilityType.reads, WarningLevel.reads, OptionType.reads,
  CacheModeType.reads, PeerMode.reads, SourceControlState.reads, CommandArgumentFlag.reads,
  ProfilingMode.reads, LinuxCompilerType.reads, DumpRecordLayoutsType.reads, LlvmVersion.reads,
  WindowsCompilerType.reads, MsvcVersion.reads, CompressionLevel.reads, CompressionFormat.reads,
)
