-- ===== src/Utils.antt =====
-- Enumerations of utils.
pub mod CommandArgumentFlag
pub mod ProfilingMode
pub mod SourceControlState
