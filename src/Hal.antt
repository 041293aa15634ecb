-- ===== src/Hal.antt =====
-- The platforms (internal/hal).
pub mod GnuDepFile
pub mod Linux
pub mod Windows
