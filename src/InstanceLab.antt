-- ===== src/InstanceLab.antt =====
-- The InstanceLab controller: internal/controller/instancelab_controller.go.
pub mod Objects
pub mod Pod
pub mod Network
pub mod Status
pub mod Reconcile
pub mod Sound
pub mod Cleanup
pub mod Steps
pub mod Installs
pub mod Complete
pub mod Endpoints
pub mod Converges
pub mod Reports
pub mod Waiting
pub mod Parents
pub mod Mounts
pub mod Phases
