-- ===== src/Core.antt =====
-- The crate `wasmatrix-core` (crates/wasmatrix-core/src): the shared data types, the event recorder,
-- the metadata registry, capability assignments and their enforcement, isolation, statelessness.
pub mod Types
pub mod Wasm
pub mod Events
pub mod Errors
pub mod Registry
pub mod Capability
pub mod Isolation
pub mod Statelessness
