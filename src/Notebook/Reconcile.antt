-- ===== src/Notebook/Reconcile.antt =====
-- `Reconcile` of internal/controller/notebooklab_controller.go, and what it does to the cluster.
mod Defs
pub mod Keeps
pub mod Children
pub mod Complete
pub mod Untouched
unfoldable pub use Defs.*
