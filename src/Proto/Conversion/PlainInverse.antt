-- ===== src/Proto/Conversion/PlainInverse.antt =====
-- The conversions that cannot fail are inverse.
use wasmatrix.Prelude.{◌≡◌, ◌↔◌, arith}
use wasmatrix.Proto.Protocol
use wasmatrix.Proto.V1
use wasmatrix.Proto.CoreTypes.{AreSame, core_types_iff}
use wasmatrix.Proto.Conversion.Plain.{
  start_instance_response_to_v1, start_instance_response_of_v1, stop_instance_request_to_v1,
  stop_instance_request_of_v1, stop_instance_response_to_v1, stop_instance_response_of_v1,
  query_instance_request_to_v1, query_instance_request_of_v1, list_instances_request_to_v1,
  list_instances_request_of_v1, invoke_capability_response_to_v1, invoke_capability_response_of_v1,
  register_node_request_to_v1, register_node_request_of_v1, register_node_response_to_v1,
  register_node_response_of_v1, status_report_response_to_v1, status_report_response_of_v1,
}

abbrev pub ArePlain : Type 0
ArePlain =
    ((m : Protocol.StartInstanceResponse) (v : V1.StartInstanceResponse)
      → (start_instance_response_of_v1 v ≡ m) ↔ (start_instance_response_to_v1 m ≡ v))
    × ((m : Protocol.StopInstanceRequest) (v : V1.StopInstanceRequest)
        → (stop_instance_request_of_v1 v ≡ m) ↔ (stop_instance_request_to_v1 m ≡ v))
    × ((m : Protocol.StopInstanceResponse) (v : V1.StopInstanceResponse)
        → (stop_instance_response_of_v1 v ≡ m) ↔ (stop_instance_response_to_v1 m ≡ v))
    × ((m : Protocol.QueryInstanceRequest) (v : V1.QueryInstanceRequest)
        → (query_instance_request_of_v1 v ≡ m) ↔ (query_instance_request_to_v1 m ≡ v))
    × ((m : Protocol.ListInstancesRequest) (v : V1.ListInstancesRequest)
        → (list_instances_request_of_v1 v ≡ m) ↔ (list_instances_request_to_v1 m ≡ v))
    × ((m : Protocol.InvokeCapabilityResponse) (v : V1.InvokeCapabilityResponse)
        → (invoke_capability_response_of_v1 v ≡ m) ↔ (invoke_capability_response_to_v1 m ≡ v))
    × ((m : Protocol.RegisterNodeRequest) (v : V1.RegisterNodeRequest)
        → (register_node_request_of_v1 v ≡ m) ↔ (register_node_request_to_v1 m ≡ v))
    × ((m : Protocol.RegisterNodeResponse) (v : V1.RegisterNodeResponse)
        → (register_node_response_of_v1 v ≡ m) ↔ (register_node_response_to_v1 m ≡ v))
    × ((m : Protocol.StatusReportResponse) (v : V1.StatusReportResponse)
        → (status_report_response_of_v1 v ≡ m) ↔ (status_report_response_to_v1 m ≡ v))

-- A plain message from the wire is read as a message exactly if that one is written as it: the
-- responses of start, stop, invocation, registration and status reports, the requests of stop,
-- query, list and registration.
plain_messages_iff : ArePlain
unfolding start_instance_response_to_v1 start_instance_response_of_v1 stop_instance_request_to_v1
    stop_instance_request_of_v1 stop_instance_response_to_v1 stop_instance_response_of_v1
    query_instance_request_to_v1 query_instance_request_of_v1 list_instances_request_to_v1
    list_instances_request_of_v1 invoke_capability_response_to_v1 invoke_capability_response_of_v1
    register_node_request_to_v1 register_node_request_of_v1 register_node_response_to_v1
    register_node_response_of_v1 status_report_response_to_v1 status_report_response_of_v1
plain_messages_iff = (
  λ m v. ground arith,
  λ m v. ground arith,
  λ m v. ground arith,
  λ m v. ground arith,
  λ m v. ground arith,
  λ m v. ground arith,
  λ m v. ground arith,
  λ m v. ground arith,
  λ m v. ground arith,
)

-- A plain message from the wire is read as a message exactly if that one is written as it: the
-- responses of start, stop, invocation, registration and status reports, the requests of stop, query,
-- list and registration. The statuses, the provider types and the restart policies of the protocol
-- stand for those of wasmatrix-core one to one.
pub conversions_iff : ArePlain × AreSame
conversions_iff = (plain_messages_iff, core_types_iff)
