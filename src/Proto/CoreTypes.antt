-- ===== src/Proto/CoreTypes.antt =====
-- Conversions between the messages' types and those of wasmatrix-core,
-- crates/wasmatrix-proto/src/protocol.rs.
use wasmatrix.Prelude.{none, ◌≡◌, ◌↔◌, arith}
use wasmatrix.Core.Types
use wasmatrix.Proto.Protocol

abbrev pub default_protocol_policy : Protocol.RestartPolicy
default_protocol_policy = record {
  policy_type = Protocol.never;
  max_retries = none;
  backoff_seconds = none;
}

unfoldable pub provider_type_of_core : Types.ProviderType → Protocol.ProviderType
provider_type_of_core Types.kv = Protocol.kv
provider_type_of_core Types.http = Protocol.http
provider_type_of_core Types.messaging = Protocol.messaging

unfoldable pub provider_type_to_core : Protocol.ProviderType → Types.ProviderType
provider_type_to_core Protocol.kv = Types.kv
provider_type_to_core Protocol.http = Types.http
provider_type_to_core Protocol.messaging = Types.messaging

unfoldable pub instance_status_of_core : Types.InstanceStatus → Protocol.InstanceStatus
instance_status_of_core Types.starting = Protocol.starting
instance_status_of_core Types.running = Protocol.running
instance_status_of_core Types.stopped = Protocol.stopped
instance_status_of_core Types.crashed = Protocol.crashed

unfoldable pub instance_status_to_core : Protocol.InstanceStatus → Types.InstanceStatus
instance_status_to_core Protocol.starting = Types.starting
instance_status_to_core Protocol.running = Types.running
instance_status_to_core Protocol.stopped = Types.stopped
instance_status_to_core Protocol.crashed = Types.crashed

unfoldable pub restart_policy_type_of_core : Types.RestartPolicyType → Protocol.RestartPolicyType
restart_policy_type_of_core Types.never = Protocol.never
restart_policy_type_of_core Types.always = Protocol.always
restart_policy_type_of_core Types.on_failure = Protocol.on_failure

unfoldable pub restart_policy_type_to_core : Protocol.RestartPolicyType → Types.RestartPolicyType
restart_policy_type_to_core Protocol.never = Types.never
restart_policy_type_to_core Protocol.always = Types.always
restart_policy_type_to_core Protocol.on_failure = Types.on_failure

unfoldable pub restart_policy_of_core : Types.RestartPolicy → Protocol.RestartPolicy
restart_policy_of_core policy = record {
  policy_type = restart_policy_type_of_core policy.policy_type;
  max_retries = policy.max_retries;
  backoff_seconds = policy.backoff_seconds;
}

unfoldable pub restart_policy_to_core : Protocol.RestartPolicy → Types.RestartPolicy
restart_policy_to_core policy = record {
  policy_type = restart_policy_type_to_core policy.policy_type;
  max_retries = policy.max_retries;
  backoff_seconds = policy.backoff_seconds;
}

-- the conversions between the protocol's types and those of wasmatrix-core are inverse both ways
abbrev pub AreSame : Type 0
AreSame =
    ((c : Types.InstanceStatus) (p : Protocol.InstanceStatus)
      → (instance_status_to_core p ≡ c) ↔ (instance_status_of_core c ≡ p))
    × ((c : Types.ProviderType) (p : Protocol.ProviderType)
        → (provider_type_to_core p ≡ c) ↔ (provider_type_of_core c ≡ p))
    × ((c : Types.RestartPolicy) (p : Protocol.RestartPolicy)
        → (restart_policy_to_core p ≡ c) ↔ (restart_policy_of_core c ≡ p))

-- The statuses, the provider types and the restart policies of the protocol stand for those of
-- wasmatrix-core one to one: the conversions between them are inverse both ways.
pub core_types_iff : AreSame
unfolding instance_status_to_core instance_status_of_core provider_type_to_core
    provider_type_of_core restart_policy_to_core restart_policy_of_core restart_policy_type_to_core
    restart_policy_type_of_core
core_types_iff = (λ c p. ground arith, λ c p. ground arith, λ c p. ground arith)
