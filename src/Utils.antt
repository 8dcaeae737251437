-- ===== src/Utils.antt =====
-- internal/utils/helpers.go, and what it uses of Go's standard library.
pub mod Sha1
pub mod Strings
pub mod Decimal
pub mod Names
pub mod Classes
