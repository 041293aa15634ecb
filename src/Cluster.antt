-- ===== src/Cluster.antt =====
-- The modes of a worker (cluster/peer.go).
pub mod PeerMode
