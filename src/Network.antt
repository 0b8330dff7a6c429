-- ===== src/Network.antt =====
-- The control plane's routing (crates/wasmatrix-control-plane/src/features/node_routing) over the
-- agents' servers (crates/wasmatrix-agent/src/server.rs): the gRPC client of the routing with a
-- server at each address.
pub mod Queries
pub mod Recoveries
mod Examples
use wasmatrix.Prelude.{ℤ, String, Bool, Result, ok, err, ◌==◌, if◌then◌else◌}
use wasmatrix.Core.Types.{DateTime}
use wasmatrix.Proto.V1
use wasmatrix.NodeRouting.Service.{Client}
use wasmatrix.Agent.Node.{Engine}
use wasmatrix.Agent.Reporting.{ReportClient}
use wasmatrix.Agent.Server.{
  NodeAgentServer, start_instance, stop_instance, query_instance, list_instances,
}

-- the servers by address
abbrev pub Servers : Engine → ReportClient → Type 0
Servers engine reports = String → NodeAgentServer engine reports

module _ {engine : Engine} {reports : ReportClient} where
  -- the servers after a call at one address
  abbrev pub replace :
      Servers engine reports → String → NodeAgentServer engine reports → Servers engine reports
  replace servers address server = λ a. if address == a then server else servers a

  -- the client's calls as the servers answer them; `invoke` answers the invocations
  abbrev pub network_client :
      V1.Generated
      → ℤ
      → DateTime
      → (String → V1.InvokeCapabilityRequest → Result V1.InvokeCapabilityResponse String)
      → (String → Bool)
      → Servers engine reports
      → Client
  network_client g timestamp now invoke reachable servers = record {
    connect = λ address. if reachable address then ok tt else err "transport error";
    start_instance = λ address req. ok (start_instance g timestamp now (servers address) req).0;
    stop_instance = λ address req. ok (stop_instance g timestamp now (servers address) req).0;
    query_instance = λ address req. ok (query_instance g (servers address) req);
    list_instances = λ address req. ok (list_instances g (servers address) req);
    invoke_capability = invoke;
  }
