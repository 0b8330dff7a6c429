-- ===== src/Proto/Conversion/Plain.antt =====
-- Conversions that cannot fail, crates/wasmatrix-proto/src/conversion.rs.
use wasmatrix.Proto.Protocol
use wasmatrix.Proto.V1

unfoldable pub start_instance_response_to_v1 :
    Protocol.StartInstanceResponse → V1.StartInstanceResponse
start_instance_response_to_v1 m = record {
  success = m.success;
  message = m.message;
  error_code = m.error_code;
}

unfoldable pub start_instance_response_of_v1 :
    V1.StartInstanceResponse → Protocol.StartInstanceResponse
start_instance_response_of_v1 m = record {
  success = m.success;
  message = m.message;
  error_code = m.error_code;
}

unfoldable pub stop_instance_request_to_v1 : Protocol.StopInstanceRequest → V1.StopInstanceRequest
stop_instance_request_to_v1 m = record { instance_id = m.instance_id }

unfoldable pub stop_instance_request_of_v1 : V1.StopInstanceRequest → Protocol.StopInstanceRequest
stop_instance_request_of_v1 m = record { instance_id = m.instance_id }

unfoldable pub stop_instance_response_to_v1 :
    Protocol.StopInstanceResponse → V1.StopInstanceResponse
stop_instance_response_to_v1 m = record {
  success = m.success;
  message = m.message;
  error_code = m.error_code;
}

unfoldable pub stop_instance_response_of_v1 :
    V1.StopInstanceResponse → Protocol.StopInstanceResponse
stop_instance_response_of_v1 m = record {
  success = m.success;
  message = m.message;
  error_code = m.error_code;
}

unfoldable pub query_instance_request_to_v1 :
    Protocol.QueryInstanceRequest → V1.QueryInstanceRequest
query_instance_request_to_v1 m = record { instance_id = m.instance_id }

unfoldable pub query_instance_request_of_v1 :
    V1.QueryInstanceRequest → Protocol.QueryInstanceRequest
query_instance_request_of_v1 m = record { instance_id = m.instance_id }

unfoldable pub list_instances_request_to_v1 :
    Protocol.ListInstancesRequest → V1.ListInstancesRequest
list_instances_request_to_v1 m = record {}

unfoldable pub list_instances_request_of_v1 :
    V1.ListInstancesRequest → Protocol.ListInstancesRequest
list_instances_request_of_v1 m = record {}

unfoldable pub invoke_capability_response_to_v1 :
    Protocol.InvokeCapabilityResponse → V1.InvokeCapabilityResponse
invoke_capability_response_to_v1 m = record {
  success = m.success;
  message = m.message;
  result_json = m.result_json;
  error_code = m.error_code;
}

unfoldable pub invoke_capability_response_of_v1 :
    V1.InvokeCapabilityResponse → Protocol.InvokeCapabilityResponse
invoke_capability_response_of_v1 m = record {
  success = m.success;
  message = m.message;
  result_json = m.result_json;
  error_code = m.error_code;
}

unfoldable pub register_node_request_to_v1 : Protocol.RegisterNodeRequest → V1.RegisterNodeRequest
register_node_request_to_v1 m = record {
  node_id = m.node_id;
  node_address = m.node_address;
  capabilities = m.capabilities;
  max_instances = m.max_instances;
}

unfoldable pub register_node_request_of_v1 : V1.RegisterNodeRequest → Protocol.RegisterNodeRequest
register_node_request_of_v1 m = record {
  node_id = m.node_id;
  node_address = m.node_address;
  capabilities = m.capabilities;
  max_instances = m.max_instances;
}

unfoldable pub register_node_response_to_v1 :
    Protocol.RegisterNodeResponse → V1.RegisterNodeResponse
register_node_response_to_v1 m = record {
  success = m.success;
  message = m.message;
  error_code = m.error_code;
}

unfoldable pub register_node_response_of_v1 :
    V1.RegisterNodeResponse → Protocol.RegisterNodeResponse
register_node_response_of_v1 m = record {
  success = m.success;
  message = m.message;
  error_code = m.error_code;
}

unfoldable pub status_report_response_to_v1 :
    Protocol.StatusReportResponse → V1.StatusReportResponse
status_report_response_to_v1 m = record { success = m.success; message = m.message }

unfoldable pub status_report_response_of_v1 :
    V1.StatusReportResponse → Protocol.StatusReportResponse
status_report_response_of_v1 m = record { success = m.success; message = m.message }
