-- ===== src/Compile/Enums.antt =====
-- The enumerations of compile/Enums.go, each in a module of its own.
pub mod ArchType
pub mod CompilerFeature
pub mod CppRttiType
pub mod CppStdType
pub mod DebugInfoType
pub mod ExceptionType
pub mod InstructionSet
pub mod LinkType
pub mod ModuleType
pub mod OptimizationLevel
pub mod PayloadType
pub mod PrecompiledHeaderType
pub mod RuntimeLibType
pub mod SanitizerType
pub mod SupportType
pub mod TagType
pub mod VisibilityType
pub mod WarningLevel
pub mod Flags
mod Unread
mod Runs
