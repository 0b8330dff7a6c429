-- ===== src/Providers.antt =====
-- The crate wasmatrix-providers: the three providers, their life cycle, and how their permission
-- checks compare with those of the core.
pub mod Json
pub mod Metadata
pub mod Kv
pub mod Messaging
pub mod Http
pub mod Lifecycle
pub mod Checks
pub mod Concrete
mod Examples
