-- ===== src/Containers.antt =====
-- The containers of internal/base/Containers.go: slices, sets, bounded sorted slices, the FNV-1a
-- hash and the sharded map.
pub mod Slice
pub mod SetT
pub mod BoundedSort
pub mod Hash
pub mod ShardedMap
mod Runs
