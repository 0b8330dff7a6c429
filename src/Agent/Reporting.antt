-- ===== src/Agent/Reporting.antt =====
-- The status reports of crates/wasmatrix-agent/src/features/status_reporting: repo/mod.rs, where the
-- gRPC client is a parameter, service/mod.rs, and the controller of controller/mod.rs, which passes on
-- to the service. The periodic task there calls `report_heartbeat` at each tick.
pub mod Heartbeats
use wasmatrix.Prelude.{ℤ, String, Option, none, List, [], ◌∷◌, map, Result, ok, err, map_err}
use wasmatrix.Core.Types.{InstanceStatus, starting, running, stopped, crashed}
use wasmatrix.Proto.V1
use wasmatrix.Agent.Node.{Engine, NodeAgent, list_instances, get_instance_status}

pub data StatusReportRepoError : Type 0 where
  connection report : String → StatusReportRepoError

pub data StatusReportServiceError : Type 0 where
  repo : StatusReportRepoError → StatusReportServiceError

-- `ControlPlaneServiceClient::report_status`, with the text of its `Status` as error
pub record ReportClient : Type 1 where
  pub State : Type 0
  pub report_status : State → V1.StatusReport → Result V1.StatusReportResponse String × State

pub record StatusReportService (client : ReportClient) : Type 0 where
  pub node_id : String
  pub repo : client.State

unfoldable pub proto_status : InstanceStatus → V1.InstanceStatus
proto_status starting = V1.starting
proto_status running = V1.running
proto_status stopped = V1.stopped
proto_status crashed = V1.crashed

abbrev pub status_update :
    V1.Generated → String → InstanceStatus → Option String → V1.InstanceStatusUpdate
status_update g instance_id status error_message = record {
  instance_id = instance_id;
  status = g.instance_status.to_i32 (proto_status status);
  error_message = error_message;
}

-- the report of `report_status`; `timestamp` is the clock's reading in seconds
abbrev pub report_of : String → ℤ → List V1.InstanceStatusUpdate → V1.StatusReport
report_of node_id timestamp updates = record {
  node_id = node_id;
  instance_updates = updates;
  timestamp = timestamp;
}

unfoldable pub heartbeat_updates :
    (engine : Engine) → V1.Generated → NodeAgent engine → List V1.InstanceStatusUpdate
heartbeat_updates engine g agent =
    map (λ id. status_update g id (get_instance_status engine agent id) none)
      (list_instances engine agent)

module _ {client : ReportClient} (timestamp : ℤ) where
  unfoldable pub report_status :
      StatusReportService client
      → List V1.InstanceStatusUpdate
      → Result (Unit {0}) StatusReportRepoError × StatusReportService client
  report_status s updates =
      let sent = client.report_status s.repo (report_of s.node_id timestamp updates) in
      (map_err report (elim sent.0 [ ok _ ↦ ok tt | err e ↦ err e ]), record s { repo = sent.1 })

  unfoldable pub report_status_change :
      V1.Generated
      → StatusReportService client
      → String
      → InstanceStatus
      → Option String
      → Result (Unit {0}) StatusReportServiceError × StatusReportService client
  report_status_change g s instance_id status error_message =
      let sent = report_status s (status_update g instance_id status error_message ∷ []) in
      (map_err repo sent.0, sent.1)

  unfoldable pub report_heartbeat :
      (engine : Engine)
      → V1.Generated
      → NodeAgent engine
      → StatusReportService client
      → Result (Unit {0}) StatusReportServiceError × StatusReportService client
  report_heartbeat engine g agent s =
      let sent = report_status s (heartbeat_updates engine g agent) in (map_err repo sent.0, sent.1)
