-- ===== src/Notebook.antt =====
-- The NotebookLab controller: internal/controller/notebooklab_controller.go.
pub mod Lifecycle
pub mod Gpu
pub mod Volumes
pub mod Children
pub mod Deployment
pub mod Networking
pub mod Status
pub mod Token
pub mod Reconcile
pub mod Reports
