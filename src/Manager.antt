-- ===== src/Manager.antt =====
-- cmd/main.go, which starts the manager, and the `SetupWithManager` methods of the controllers.
pub mod Scheme
pub mod Registered
pub mod Options
pub mod Controllers
pub mod Start
pub mod Servers
pub mod Starts
