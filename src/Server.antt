-- ===== src/Server.antt =====
-- `ControlPlaneServer` of crates/wasmatrix-control-plane/src/server.rs: the handlers of the control
-- plane's gRPC service. The metrics and log lines are left out.
pub mod Reports
mod Examples
use wasmatrix.Prelude.{
  ℕ, ℤ, String, Bool, true, List, [], ◌∷◌, Option, none, some, Result, ok, err, ◌>>=◌, map_err,
  ok_or, format,
}
use wasmatrix.Core.Types.{DateTime, InstanceStatus}
use wasmatrix.ControlPlane.{ControlPlane, update_instance_status}
use wasmatrix.Proto.V1
use wasmatrix.Proto.CoreTypes.{instance_status_to_core}
use wasmatrix.Proto.Conversion.Parts.{instance_status_of_v1}
use wasmatrix.Shared.{display}
use wasmatrix.NodeRouting.Repository.{Repository}
use wasmatrix.NodeRouting.Service.{Client, NodeRoutingService, register_node, record_status_report}
use wasmatrix.NodeRouting.Recovery.{recover_node_state}

-- the codes of `tonic::Status` that the handlers use
pub data Status : Type 0 where
  internal invalid_argument : String → Status

pub record ControlPlaneServer : Type 0 where
  pub control_plane : ControlPlane
  pub routing : NodeRoutingService

module _ (client : Client) (g : V1.Generated) (to_rfc3339 : DateTime → String)
    (unix_to_utc : ℤ → Option DateTime) (now : DateTime) where
  unfoldable pub handle_register_node :
      ControlPlaneServer
      → V1.RegisterNodeRequest
      → Result V1.RegisterNodeResponse Status × ControlPlaneServer
  handle_register_node server req =
      let (registered, service) =
        register_node to_rfc3339 now server.routing req.node_id req.node_address req.capabilities
          req.max_instances in
      elim registered [
        | err e ↦ (err (internal (display e)), record server { routing = service })
        | ok _ ↦
            let (recovered, state) =
              recover_node_state client g unix_to_utc req.node_id
                (server.control_plane, service.repo) in
            (
              ok (record {
                success = true;
                message = format ("Node " ∷ req.node_id ∷ " registered successfully" ∷ []);
                error_code = none;
              }),
              record { control_plane = state.0; routing = record service { repo = state.1 } },
            )
      ]

-- the status of an update, or the refusal of the whole report
unfoldable pub read_update : V1.Generated → V1.InstanceStatusUpdate → Result InstanceStatus Status
read_update g update = do
  proto_status ←
      ok_or (g.instance_status.of_i32 update.status) (invalid_argument "Invalid instance status")
  core_status ← map_err invalid_argument (instance_status_of_v1 proto_status)
  ok (instance_status_to_core core_status)

-- the loop over the updates; one of an unknown instance is skipped
unfoldable pub apply_updates :
    V1.Generated
    → List V1.InstanceStatusUpdate
    → ControlPlane
    → Result (Unit {0}) Status × ControlPlane
apply_updates g [] cp = (ok tt, cp)
apply_updates g (update ∷ updates) cp = elim (read_update g update) [
  | err e ↦ (err e, cp)
  | ok status ↦ apply_updates g updates (update_instance_status cp update.instance_id status).1
]

unfoldable pub handle_report_status :
    V1.Generated
    → (ℤ → Option DateTime)
    → ControlPlaneServer
    → V1.StatusReport
    → Result V1.StatusReportResponse Status × ControlPlaneServer
handle_report_status g unix_to_utc server req =
    let (recorded, repo) =
      record_status_report unix_to_utc server.routing.repo req.node_id req.timestamp in
    let heard = record server { routing = record server.routing { repo = repo } } in
    elim recorded [
      | err e ↦ (err (internal (display e)), heard)
      | ok _ ↦
          let (applied, cp) = apply_updates g req.instance_updates server.control_plane in
          let after = record heard { control_plane = cp } in
          elim applied [
            | err e ↦ (err e, after)
            | ok _ ↦ (ok (record { success = true; message = "Status report received" }), after)
          ]
    ]
