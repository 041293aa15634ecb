-- ===== src/BuildExecution.antt =====
-- The execution of one build node, of utils/BuildExecution.go. What the other nodes, the file system
-- and the buildable do is a parameter, the record `Environment`.
pub mod Environment
pub mod Check
pub mod Execute
pub mod UpToDate
pub mod Settled
pub mod Recover
pub mod Many
pub mod Launch
pub mod Options
pub mod Samples
mod Runs
mod RunsFailed
