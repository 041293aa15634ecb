-- ===== src/BuildNode.antt =====
-- The build nodes of utils/BuildNode.go: what a node records of its dependencies. A node is the
-- record of the fields of `buildNode`; the lock beside them is held by whoever changes a node, so
-- the operations are functions on the record.
pub mod Dependencies
pub mod Node
pub mod Links
pub mod Wellformed
pub mod Saved
mod Runs
mod SavedRuns
