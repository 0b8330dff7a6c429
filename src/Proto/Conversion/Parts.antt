-- ===== src/Proto/Conversion/Parts.antt =====
-- Conversions of the parts of messages, crates/wasmatrix-proto/src/conversion.rs. The error of the `TryFrom`
-- conversions is a `String`.
use wasmatrix.Prelude.{◌>>=◌, String, Result, ok, err, ok_or}
use wasmatrix.Proto.Protocol
use wasmatrix.Proto.V1

unfoldable pub provider_type_to_v1 : Protocol.ProviderType → V1.ProviderType
provider_type_to_v1 Protocol.kv = V1.kv
provider_type_to_v1 Protocol.http = V1.http
provider_type_to_v1 Protocol.messaging = V1.messaging

unfoldable pub provider_type_of_v1 : V1.ProviderType → Result Protocol.ProviderType String
provider_type_of_v1 V1.kv = ok Protocol.kv
provider_type_of_v1 V1.http = ok Protocol.http
provider_type_of_v1 V1.messaging = ok Protocol.messaging
provider_type_of_v1 V1.unspecified_provider_type = err "ProviderType is UNSPECIFIED"

unfoldable pub instance_status_to_v1 : Protocol.InstanceStatus → V1.InstanceStatus
instance_status_to_v1 Protocol.starting = V1.starting
instance_status_to_v1 Protocol.running = V1.running
instance_status_to_v1 Protocol.stopped = V1.stopped
instance_status_to_v1 Protocol.crashed = V1.crashed

unfoldable pub instance_status_of_v1 : V1.InstanceStatus → Result Protocol.InstanceStatus String
instance_status_of_v1 V1.starting = ok Protocol.starting
instance_status_of_v1 V1.running = ok Protocol.running
instance_status_of_v1 V1.stopped = ok Protocol.stopped
instance_status_of_v1 V1.crashed = ok Protocol.crashed
instance_status_of_v1 V1.unspecified_instance_status = err "InstanceStatus is UNSPECIFIED"

unfoldable pub restart_policy_type_to_v1 : Protocol.RestartPolicyType → V1.RestartPolicyType
restart_policy_type_to_v1 Protocol.never = V1.never
restart_policy_type_to_v1 Protocol.always = V1.always
restart_policy_type_to_v1 Protocol.on_failure = V1.on_failure

unfoldable pub restart_policy_type_of_v1 :
    V1.RestartPolicyType → Result Protocol.RestartPolicyType String
restart_policy_type_of_v1 V1.never = ok Protocol.never
restart_policy_type_of_v1 V1.always = ok Protocol.always
restart_policy_type_of_v1 V1.on_failure = ok Protocol.on_failure
restart_policy_type_of_v1 V1.unspecified_restart_policy_type =
    err "RestartPolicyType is UNSPECIFIED"

unfoldable pub capability_assignment_to_v1 :
    V1.Generated → Protocol.CapabilityAssignment → V1.CapabilityAssignment
capability_assignment_to_v1 g m = record {
  instance_id = m.instance_id;
  capability_id = m.capability_id;
  provider_type = g.provider_type.to_i32 (provider_type_to_v1 m.provider_type);
  permissions = m.permissions;
}

unfoldable pub capability_assignment_of_v1 :
    V1.Generated → V1.CapabilityAssignment → Result Protocol.CapabilityAssignment String
capability_assignment_of_v1 g m = do
  provider_type_v1 ← ok_or (g.provider_type.of_i32 m.provider_type) "Invalid ProviderType"
  provider_type ← provider_type_of_v1 provider_type_v1
  ok (record {
    instance_id = m.instance_id;
    capability_id = m.capability_id;
    provider_type = provider_type;
    permissions = m.permissions;
  })

unfoldable pub instance_metadata_to_v1 :
    V1.Generated → Protocol.InstanceMetadata → V1.InstanceMetadata
instance_metadata_to_v1 g m = record {
  instance_id = m.instance_id;
  node_id = m.node_id;
  module_hash = m.module_hash;
  created_at = m.created_at;
  status = g.instance_status.to_i32 (instance_status_to_v1 m.status);
}

unfoldable pub instance_metadata_of_v1 :
    V1.Generated → V1.InstanceMetadata → Result Protocol.InstanceMetadata String
instance_metadata_of_v1 g m = do
  status_v1 ← ok_or (g.instance_status.of_i32 m.status) "Invalid InstanceStatus"
  status ← instance_status_of_v1 status_v1
  ok (record {
    instance_id = m.instance_id;
    node_id = m.node_id;
    module_hash = m.module_hash;
    created_at = m.created_at;
    status = status;
  })

unfoldable pub restart_policy_to_v1 : V1.Generated → Protocol.RestartPolicy → V1.RestartPolicy
restart_policy_to_v1 g m = record {
  policy_type = g.restart_policy_type.to_i32 (restart_policy_type_to_v1 m.policy_type);
  max_retries = m.max_retries;
  backoff_seconds = m.backoff_seconds;
}

unfoldable pub restart_policy_of_v1 :
    V1.Generated → V1.RestartPolicy → Result Protocol.RestartPolicy String
restart_policy_of_v1 g m = do
  policy_type_v1 ← ok_or (g.restart_policy_type.of_i32 m.policy_type) "Invalid RestartPolicyType"
  policy_type ← restart_policy_type_of_v1 policy_type_v1
  ok (record {
    policy_type = policy_type;
    max_retries = m.max_retries;
    backoff_seconds = m.backoff_seconds;
  })

unfoldable pub instance_status_update_to_v1 :
    V1.Generated → Protocol.InstanceStatusUpdate → V1.InstanceStatusUpdate
instance_status_update_to_v1 g m = record {
  instance_id = m.instance_id;
  status = g.instance_status.to_i32 (instance_status_to_v1 m.status);
  error_message = m.error_message;
}

unfoldable pub instance_status_update_of_v1 :
    V1.Generated → V1.InstanceStatusUpdate → Result Protocol.InstanceStatusUpdate String
instance_status_update_of_v1 g m = do
  status_v1 ← ok_or (g.instance_status.of_i32 m.status) "Invalid InstanceStatus"
  status ← instance_status_of_v1 status_v1
  ok (record { instance_id = m.instance_id; status = status; error_message = m.error_message })
