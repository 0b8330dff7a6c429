-- ===== src/NodeRouting/Controller.antt =====
-- `NodeRoutingController` of
-- crates/wasmatrix-control-plane/src/features/node_routing/controller/mod.rs, which passes each call on
-- to the service.
use wasmatrix.Prelude.{ℕ, ℤ, String, List, Option}
use wasmatrix.Core.Types.{
  DateTime, CapabilityAssignment, InstanceMetadata, StartInstanceRequest, QueryInstanceRequest,
  InstanceStatusResponse,
}
use wasmatrix.ControlPlane.{ControlPlane}
use wasmatrix.Proto.V1
use wasmatrix.Shared.{ControlPlaneResult}
use wasmatrix.NodeRouting.Repository.{Repository}
use wasmatrix.NodeRouting.Service as Service
use wasmatrix.NodeRouting.Service.{Client, NodeRoutingService, route_start_instance}
use wasmatrix.NodeRouting.Requests.{
  Json, route_stop_instance, route_query_instance, route_list_instances,
  route_capability_invocation,
}
use wasmatrix.NodeRouting.Recovery as Recovery

pub record NodeRoutingController : Type 0 where
  pub service : NodeRoutingService

-- the controller after a change of the service's repository
abbrev pub with_repo : NodeRoutingController → Repository → NodeRoutingController
with_repo c repo = record c { service = record c.service { repo = repo } }

unfoldable pub register_node :
    (DateTime → String)
    → DateTime
    → NodeRoutingController
    → String
    → String
    → List String
    → ℕ
    → ControlPlaneResult (Unit {0}) × NodeRoutingController
register_node to_rfc3339 now c node_id node_address capabilities max_instances =
    let answer =
      Service.register_node to_rfc3339 now c.service node_id node_address capabilities
        max_instances in
    (answer.0, record c { service = answer.1 })

unfoldable pub record_status_report :
    (ℤ → Option DateTime)
    → NodeRoutingController
    → String
    → ℤ
    → ControlPlaneResult (Unit {0}) × NodeRoutingController
record_status_report unix_to_utc c node_id timestamp =
    let answer = Service.record_status_report unix_to_utc c.service.repo node_id timestamp in
    (answer.0, with_repo c answer.1)

module _ (client : Client) (g : V1.Generated) where
  unfoldable pub start_instance :
      String
      → NodeRoutingController
      → StartInstanceRequest
      → ControlPlaneResult String × NodeRoutingController
  start_instance uuid c request =
      let answer = route_start_instance client g uuid c.service.repo request in
      (answer.0, with_repo c answer.1)

  unfoldable pub query_instance :
      (ℤ → Option DateTime)
      → NodeRoutingController
      → QueryInstanceRequest
      → ControlPlaneResult InstanceStatusResponse
  query_instance unix_to_utc c request =
      route_query_instance client g unix_to_utc c.service.repo request

  unfoldable pub list_instances :
      (ℤ → Option DateTime)
      → NodeRoutingController
      → ControlPlaneResult (List InstanceMetadata) × NodeRoutingController
  list_instances unix_to_utc c =
      let answer = route_list_instances client g unix_to_utc c.service.repo in
      (answer.0, with_repo c answer.1)

  unfoldable pub invoke_capability :
      (json : Json)
      → NodeRoutingController
      → String
      → CapabilityAssignment
      → String
      → json.Value
      → ControlPlaneResult json.Value
  invoke_capability json c instance_id assignment operation params =
      route_capability_invocation client g json c.service.repo instance_id assignment operation
        params

  unfoldable pub recover_node_state :
      (ℤ → Option DateTime)
      → String
      → ControlPlane × NodeRoutingController
      → ControlPlaneResult ℕ × (ControlPlane × NodeRoutingController)
  recover_node_state unix_to_utc node_id (cp, c) =
      let answer = Recovery.recover_node_state client g unix_to_utc node_id (cp, c.service.repo) in
      (answer.0, (answer.1.0, with_repo c answer.1.1))

unfoldable pub stop_instance :
    Client → NodeRoutingController → String → ControlPlaneResult (Unit {0}) × NodeRoutingController
stop_instance client c instance_id =
    let answer = route_stop_instance client c.service.repo instance_id in
    (answer.0, with_repo c answer.1)
