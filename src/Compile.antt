-- ===== src/Compile.antt =====
-- The compilation model (compile).
pub mod Enums
pub mod Unity
