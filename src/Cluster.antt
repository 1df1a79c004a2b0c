-- ===== src/Cluster.antt =====
-- The cluster of database instances and the connections to them (pkg/activerecord/cluster.go and
-- connection.go). A text is the list of its bytes.
pub mod Shard
pub mod Topology
pub mod Loading
pub mod Cacher
pub mod Connections
pub mod Settings
