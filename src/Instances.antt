-- ===== src/Instances.antt =====
-- The instance management of crates/wasmatrix-control-plane/src/features/instance_management: the
-- repository of the instances behind an interface, the service over it and its controller.
pub mod Repository
pub mod Memory
pub mod Service
pub mod Account
pub mod Agreement
mod Examples
