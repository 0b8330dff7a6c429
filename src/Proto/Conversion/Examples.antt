-- ===== src/Proto/Conversion/Examples.antt =====
-- The messages of the tests in crates/wasmatrix-proto/src/conversion.rs, with the numbers that
-- proto/wasmatrix.proto gives to the variants.
use wasmatrix.Prelude.{pos, true, [], ◌∷◌, some, none, ok, err, ◌≡◌, refl, collect}
use wasmatrix.Proto.Protocol
use wasmatrix.Proto.Conversion.Codec.{generated, generated-IsGenerated}
use wasmatrix.Proto.Conversion.Parts.{
  capability_assignment_of_v1, provider_type_of_v1, capability_assignment_to_v1,
  provider_type_to_v1,
}
use wasmatrix.Proto.Conversion.Messages.{
  start_instance_request_to_v1, start_instance_request_of_v1, query_instance_response_to_v1,
  query_instance_response_of_v1, list_instances_response_to_v1, list_instances_response_of_v1,
  invoke_capability_request_to_v1, invoke_capability_request_of_v1, status_report_to_v1,
  status_report_of_v1,
}
use wasmatrix.Proto.Conversion.Inverse.{IsInverse, messages-IsInverse}

abbrev assignment : Protocol.CapabilityAssignment
assignment = record {
  instance_id = "instance-1";
  capability_id = "kv-1";
  provider_type = Protocol.kv;
  permissions = "kv:read" ∷ [];
}

abbrev start_request : Protocol.StartInstanceRequest
start_request = record {
  instance_id = "instance-1";
  module_bytes = 0 ∷ 97 ∷ 115 ∷ 109 ∷ [];
  capabilities = assignment ∷ [];
  restart_policy = record {
    policy_type = Protocol.on_failure;
    max_retries = some 3;
    backoff_seconds = some 5;
  };
}

abbrev metadata : Protocol.InstanceMetadata
metadata = record {
  instance_id = "instance-1";
  node_id = "node-1";
  module_hash = "abc";
  created_at = pos 42;
  status = Protocol.running;
}

abbrev query_response : Protocol.QueryInstanceResponse
query_response = record { success = true; instance_of = some metadata; error_code = none }

abbrev list_response : Protocol.ListInstancesResponse
list_response = record { success = true; instances = metadata ∷ [] }

abbrev invocation : Protocol.InvokeCapabilityRequest
invocation = record {
  instance_id = "instance-1";
  capability_id = "http-provider";
  provider_type = Protocol.http;
  operation = "request";
  params_json = "{}";
  permissions = "http:request" ∷ [];
}

abbrev report : Protocol.StatusReport
report = record {
  node_id = "node-1";
  instance_updates =
      record { instance_id = "instance-1"; status = Protocol.crashed; error_message = some "trap" }
      ∷ [];
  timestamp = pos 100;
}

messages-IsInverse_example :
    IsInverse (start_instance_request_to_v1 generated) (start_instance_request_of_v1 generated)
    × IsInverse (query_instance_response_to_v1 generated) (query_instance_response_of_v1 generated)
    × IsInverse (list_instances_response_to_v1 generated) (list_instances_response_of_v1 generated)
    × IsInverse
        (invoke_capability_request_to_v1 generated)
        (invoke_capability_request_of_v1 generated)
    × IsInverse (status_report_to_v1 generated) (status_report_of_v1 generated)
messages-IsInverse_example = messages-IsInverse generated generated-IsGenerated

-- messages that were written are read again
messages_are_read_again :
    (start_instance_request_of_v1 generated (start_instance_request_to_v1 generated start_request)
      ≡ ok start_request)
    × (query_instance_response_of_v1 generated
          (query_instance_response_to_v1 generated query_response)
        ≡ ok query_response)
    × (list_instances_response_of_v1 generated
          (list_instances_response_to_v1 generated list_response)
        ≡ ok list_response)
    × (invoke_capability_request_of_v1 generated
          (invoke_capability_request_to_v1 generated invocation)
        ≡ ok invocation)
    × (status_report_of_v1 generated (status_report_to_v1 generated report) ≡ ok report)
messages_are_read_again =
    let law = messages-IsInverse generated generated-IsGenerated in
    (
      (law.0 (start_instance_request_to_v1 generated start_request) start_request).1 refl,
      (law.1 (query_instance_response_to_v1 generated query_response) query_response).1 refl,
      (law.2 (list_instances_response_to_v1 generated list_response) list_response).1 refl,
      (law.3 (invoke_capability_request_to_v1 generated invocation) invocation).1 refl,
      (law.4 (status_report_to_v1 generated report) report).1 refl,
    )

-- a request without a policy, or with a number that is no variant, is refused
missing_policy :
    start_instance_request_of_v1 generated
      (record (start_instance_request_to_v1 generated start_request) { restart_policy = none })
    ≡ err "restart_policy is missing"
unfolding start_instance_request_of_v1 start_instance_request_to_v1 collect
    capability_assignment_of_v1 capability_assignment_to_v1 provider_type_to_v1 provider_type_of_v1
missing_policy = refl
