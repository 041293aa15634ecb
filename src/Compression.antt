-- ===== src/Compression.antt =====
-- Enumerations of internal/base/Compression.go.
pub mod CompressionFormat
pub mod CompressionLevel
