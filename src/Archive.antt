-- ===== src/Archive.antt =====
-- The binary archives of internal/base/Archive.go, and the helpers of internal/base/Serializable.go.
pub mod Bytes
pub mod Codec
pub mod Text
pub mod Slices
pub mod Runs
