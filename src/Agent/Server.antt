-- ===== src/Agent/Server.antt =====
-- `NodeAgentServer` of crates/wasmatrix-agent/src/server.rs: the handlers of the agent's gRPC service
-- but the invocation of capabilities, which is Agent/Invocation. Log lines and correlation
-- identifiers are left out; a failed report is only logged.
pub mod Responses
use wasmatrix.Prelude.{
  ℕ, ℤ, pos, String, Bool, true, false, Option, none, some, List, [], ◌∷◌, map, Result, ok, err,
  map_err, ◌<>◌,
}
use wasmatrix.Core.Types.{
  DateTime, CoreError, CapabilityAssignment, InstanceStatus, running, stopped,
}
use wasmatrix.Core.Errors.{display}
use wasmatrix.Proto.V1
use wasmatrix.Proto.Protocol
use wasmatrix.Proto.CoreTypes.{
  provider_type_to_core, instance_status_of_core, restart_policy_to_core,
}
use wasmatrix.Proto.Conversion.Parts.{instance_metadata_to_v1}
use wasmatrix.Proto.Conversion.Messages.{start_instance_request_of_v1}
use wasmatrix.Proto.Conversion.Plain.{stop_instance_request_of_v1}
use wasmatrix.Providers.Lifecycle.{
  LifecycleRepository, new as new_lifecycle, start_provider as start_state,
  stop_provider as stop_state,
}
use wasmatrix.Agent.Node.{
  Engine, NodeAgent, start_instance_local, stop_instance_local, get_instance_status,
  list_instances as listed,
}
use wasmatrix.Agent.Reporting.{ReportClient, StatusReportService, report_status_change}

pub record NodeAgentServer (engine : Engine) (client : ReportClient) : Type 0 where
  pub agent : NodeAgent engine
  pub status_report_controller : Option (StatusReportService client)
  pub provider_lifecycle : LifecycleRepository

unfoldable pub convert_capability : Protocol.CapabilityAssignment → CapabilityAssignment
unfolding provider_type_to_core
convert_capability cap = record {
  instance_id = cap.instance_id;
  capability_id = cap.capability_id;
  provider_type = provider_type_to_core cap.provider_type;
  permissions = cap.permissions;
}

-- what the server says of an instance, whose metadata the agent does not have
abbrev pub local_metadata : String → Protocol.InstanceStatus → Protocol.InstanceMetadata
local_metadata instance_id status = record {
  instance_id = instance_id;
  node_id = "local";
  module_hash = "unknown";
  created_at = pos 0;
  status = status;
}

abbrev pub start_failed : String → String → V1.StartInstanceResponse
start_failed message code = record { success = false; message = message; error_code = some code }

abbrev pub stop_failed : String → V1.StopInstanceResponse
stop_failed message = record {
  success = false;
  message = message;
  error_code = some "INTERNAL_ERROR";
}

module _ {engine : Engine} {client : ReportClient} where
  abbrev pub new :
      NodeAgent engine → Option (StatusReportService client) → NodeAgentServer engine client
  new agent controller = record {
    agent = agent;
    status_report_controller = controller;
    provider_lifecycle = new_lifecycle;
  }

  unfoldable pub start_provider :
      NodeAgentServer engine client → String → NodeAgentServer engine client
  start_provider s provider_id = record s {
    provider_lifecycle = start_state s.provider_lifecycle provider_id;
  }

  unfoldable pub stop_provider :
      NodeAgentServer engine client → String → NodeAgentServer engine client
  stop_provider s provider_id = record s {
    provider_lifecycle = stop_state s.provider_lifecycle provider_id;
  }

  module _ (g : V1.Generated) (timestamp : ℤ) (now : DateTime) where
    -- `if let Some(controller) = &self.status_report_controller { … }`
    unfoldable pub report_change :
        NodeAgentServer engine client → String → InstanceStatus → NodeAgentServer engine client
    report_change s instance_id status = elim s.status_report_controller [
      | none ↦ s
      | some service ↦ record s {
        status_report_controller =
            some (report_status_change timestamp g service instance_id status none).1;
      }
    ]

    unfoldable pub start_instance :
        NodeAgentServer engine client
        → V1.StartInstanceRequest
        → V1.StartInstanceResponse × NodeAgentServer engine client
    unfolding convert_capability
    start_instance s request = elim (start_instance_request_of_v1 g request) [
      | err e ↦ (start_failed ("Invalid request: " <> e) "INVALID_REQUEST", s)
      | ok req ↦
          let (answer, agent) =
            start_instance_local engine now s.agent req.instance_id req.module_bytes
              (map convert_capability req.capabilities)
              (restart_policy_to_core req.restart_policy) in
          let after = record s { agent = agent } in
          elim answer [
            | err e ↦ (start_failed (display e) "INTERNAL_ERROR", after)
            | ok _ ↦ (
              record {
                success = true;
                message = "Instance started successfully";
                error_code = none;
              },
              report_change after req.instance_id running,
            )
          ]
    ]

    unfoldable pub stop_instance :
        NodeAgentServer engine client
        → V1.StopInstanceRequest
        → V1.StopInstanceResponse × NodeAgentServer engine client
    stop_instance s request =
        let req = stop_instance_request_of_v1 request in
        let (answer, agent) = stop_instance_local engine now s.agent req.instance_id in
        let after = record s { agent = agent } in
        elim answer [
          | err e ↦ (stop_failed (display e), after)
          | ok _ ↦ (
            record { success = true; message = "Instance stopped successfully"; error_code = none },
            report_change after req.instance_id stopped,
          )
        ]

  unfoldable pub query_instance :
      V1.Generated
      → NodeAgentServer engine client
      → V1.QueryInstanceRequest
      → V1.QueryInstanceResponse
  query_instance g s request =
      let status = get_instance_status engine s.agent request.instance_id in
      record {
        success = true;
        instance_of = some (
            instance_metadata_to_v1 g
              (local_metadata request.instance_id (instance_status_of_core status)));
        error_code = none;
      }

  unfoldable pub list_instances :
      V1.Generated
      → NodeAgentServer engine client
      → V1.ListInstancesRequest
      → V1.ListInstancesResponse
  list_instances g s request = record {
    success = true;
    instances =
        map (λ id. instance_metadata_to_v1 g (local_metadata id Protocol.running))
          (listed engine s.agent);
  }
