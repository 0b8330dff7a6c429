-- ===== src/NodeRouting.antt =====
-- Routing of requests to the node agents,
-- crates/wasmatrix-control-plane/src/features/node_routing.
pub mod Repository
pub mod Selection
pub mod Etcd
pub mod Service
pub mod Requests
pub mod Recovery
pub mod Controller
pub mod Invariant
pub mod Runs
mod Examples
