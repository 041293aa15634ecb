-- ===== src/Hal/Windows.antt =====
-- Enumerations of internal/hal/windows.
pub mod CompilerType
pub mod MsvcVersion
