-- ===== src/ClusterLab.antt =====
-- The ClusterLab controller: internal/controller/clusterlab_controller.go.
pub mod Provision
pub mod Status
pub mod Reconcile
pub mod Isolation
pub mod Counts
pub mod Labels
pub mod Ttl
pub mod Quota
pub mod Deletion
pub mod Drains
pub mod Governed
pub mod Complete
pub mod Converges
pub mod Reports
