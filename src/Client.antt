-- ===== src/Client.antt =====
-- The packages that the controllers call and that are not part of the repository. They are
-- parameters: the operations are in `Defs`, what the proofs assume of them in `Laws`, and a client
-- in memory that meets the assumptions in `Memory`.
mod Defs
pub mod Laws
pub mod Found
pub mod Frame
pub mod Tables
pub mod Memory
unfoldable pub use Defs.*
