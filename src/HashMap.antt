-- ===== src/HashMap.antt =====
-- `std::collections::HashMap` with text keys. The order in which a map lists its entries is
-- unspecified in Rust; here it is some fixed order, and no property depends on which.
mod Defs
mod Laws
pub mod Entries
unfoldable pub use Defs.*
pub use Laws.*
