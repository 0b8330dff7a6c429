-- ===== src/Proto/Conversion.antt =====
-- The conversions of crates/wasmatrix-proto/src/conversion.rs between the messages and their types on the wire.
pub mod Parts
pub mod Messages
pub mod Plain
pub mod Codec
pub mod Inverse
pub mod PlainInverse
mod Examples
