-- ===== src/Hal/Linux.antt =====
-- Enumerations of internal/hal/linux.
pub mod CompilerType
pub mod DumpRecordLayoutsType
pub mod LlvmVersion
