-- ===== src/Proto.antt =====
-- The protocol between control plane and node agents, crates/wasmatrix-proto.
pub mod Protocol
pub mod V1
pub mod Conversion
pub mod CoreTypes
