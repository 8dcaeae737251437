-- ===== src/Utils/Names.antt =====
-- The names that the operator generates: internal/utils/helpers.go.
mod Defs
pub mod Bytes
pub mod Labels
pub mod Hosts
unfoldable pub use Defs.*
