-- ===== src/Agent.antt =====
-- The node agent, crates/wasmatrix-agent/src/lib.rs.
pub mod Restart
pub mod Node
pub mod Reporting
pub mod Server
pub mod Invocation
mod Examples
mod ServerExamples
mod InvocationExamples
