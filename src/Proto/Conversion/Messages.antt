-- ===== src/Proto/Conversion/Messages.antt =====
-- Conversions that may fail, crates/wasmatrix-proto/src/conversion.rs.
use wasmatrix.Prelude.{◌>>=◌, String, map, some, Result, ok, ok_or, collect, transpose}
use mathlib.Core.Option
use wasmatrix.Proto.Protocol
use wasmatrix.Proto.V1
use wasmatrix.Proto.Conversion.Parts.{
  capability_assignment_to_v1, capability_assignment_of_v1, instance_metadata_to_v1,
  instance_metadata_of_v1, restart_policy_to_v1, restart_policy_of_v1, instance_status_update_to_v1,
  instance_status_update_of_v1, provider_type_to_v1, provider_type_of_v1,
}

unfoldable pub start_instance_request_to_v1 :
    V1.Generated → Protocol.StartInstanceRequest → V1.StartInstanceRequest
start_instance_request_to_v1 g m = record {
  instance_id = m.instance_id;
  module_bytes = m.module_bytes;
  capabilities = map (capability_assignment_to_v1 g) m.capabilities;
  restart_policy = some (restart_policy_to_v1 g m.restart_policy);
}

unfoldable pub start_instance_request_of_v1 :
    V1.Generated → V1.StartInstanceRequest → Result Protocol.StartInstanceRequest String
start_instance_request_of_v1 g m = do
  capabilities ← collect (capability_assignment_of_v1 g) m.capabilities
  restart_policy_v1 ← ok_or m.restart_policy "restart_policy is missing"
  restart_policy ← restart_policy_of_v1 g restart_policy_v1
  ok (record {
    instance_id = m.instance_id;
    module_bytes = m.module_bytes;
    capabilities = capabilities;
    restart_policy = restart_policy;
  })

unfoldable pub query_instance_response_to_v1 :
    V1.Generated → Protocol.QueryInstanceResponse → V1.QueryInstanceResponse
query_instance_response_to_v1 g m = record {
  success = m.success;
  instance_of = Option.map (instance_metadata_to_v1 g) m.instance_of;
  error_code = m.error_code;
}

unfoldable pub query_instance_response_of_v1 :
    V1.Generated → V1.QueryInstanceResponse → Result Protocol.QueryInstanceResponse String
query_instance_response_of_v1 g m = do
  instance_of ← transpose (instance_metadata_of_v1 g) m.instance_of
  ok (record { success = m.success; instance_of = instance_of; error_code = m.error_code })

unfoldable pub list_instances_response_to_v1 :
    V1.Generated → Protocol.ListInstancesResponse → V1.ListInstancesResponse
list_instances_response_to_v1 g m = record {
  success = m.success;
  instances = map (instance_metadata_to_v1 g) m.instances;
}

unfoldable pub list_instances_response_of_v1 :
    V1.Generated → V1.ListInstancesResponse → Result Protocol.ListInstancesResponse String
list_instances_response_of_v1 g m = do
  instances ← collect (instance_metadata_of_v1 g) m.instances
  ok (record { success = m.success; instances = instances })

unfoldable pub invoke_capability_request_to_v1 :
    V1.Generated → Protocol.InvokeCapabilityRequest → V1.InvokeCapabilityRequest
invoke_capability_request_to_v1 g m = record {
  instance_id = m.instance_id;
  capability_id = m.capability_id;
  provider_type = g.provider_type.to_i32 (provider_type_to_v1 m.provider_type);
  operation = m.operation;
  params_json = m.params_json;
  permissions = m.permissions;
}

unfoldable pub invoke_capability_request_of_v1 :
    V1.Generated → V1.InvokeCapabilityRequest → Result Protocol.InvokeCapabilityRequest String
invoke_capability_request_of_v1 g m = do
  provider_type_v1 ← ok_or (g.provider_type.of_i32 m.provider_type) "Invalid ProviderType"
  provider_type ← provider_type_of_v1 provider_type_v1
  ok (record {
    instance_id = m.instance_id;
    capability_id = m.capability_id;
    provider_type = provider_type;
    operation = m.operation;
    params_json = m.params_json;
    permissions = m.permissions;
  })

unfoldable pub status_report_to_v1 : V1.Generated → Protocol.StatusReport → V1.StatusReport
status_report_to_v1 g m = record {
  node_id = m.node_id;
  instance_updates = map (instance_status_update_to_v1 g) m.instance_updates;
  timestamp = m.timestamp;
}

unfoldable pub status_report_of_v1 :
    V1.Generated → V1.StatusReport → Result Protocol.StatusReport String
status_report_of_v1 g m = do
  instance_updates ← collect (instance_status_update_of_v1 g) m.instance_updates
  ok (record { node_id = m.node_id; instance_updates = instance_updates; timestamp = m.timestamp })
