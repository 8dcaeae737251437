-- ===== src/Api.antt =====
-- The custom resources of the operator: api/v1alpha1.
pub mod NotebookLab
pub mod ClusterLab
pub mod InstanceLab
