-- ===== src/BuildGraph.antt =====
-- The build graph of utils/BuildGraph.go.
pub mod Create
pub mod Files
pub mod Chain
mod Runs
mod FileRuns
