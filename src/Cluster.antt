-- ===== src/Cluster.antt =====
-- cluster.py: detection of the cluster, its ports, and the coordinator.
pub mod Detection
pub mod Ports
pub mod Membership
pub mod Coordinator
