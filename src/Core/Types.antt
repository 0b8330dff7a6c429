-- ===== src/Core/Types.antt =====
-- The data types of crates/wasmatrix-core/src/lib.rs.
-- A time (`DateTime<Utc>`, `Instant`) is a number; `Utc::now()` and `Uuid::new_v4()` are arguments.
use wasmatrix.Prelude.{ℕ, String, Bool, true, false, Option, none, some, List, contains}
use wasmatrix.HashMap.{HashMap}

abbrev pub DateTime : Type 0
DateTime = ℕ

pub data CoreError : Type 0 where
  invalid_instance_id invalid_capability_assignment serialization_error wasm_runtime_error
        resource_exhausted timeout crash_detected restart_policy_violation :
      String → CoreError

pub data InstanceStatus : Type 0 where
  starting running stopped crashed : InstanceStatus

pub record InstanceMetadata : Type 0 where
  pub instance_id : String
  pub node_id : String
  pub module_hash : String
  pub created_at : DateTime
  pub status : InstanceStatus

-- `InstanceMetadata::new`, with the fresh identifier and the time that it draws
unfoldable pub new_metadata : String → DateTime → String → String → InstanceMetadata
new_metadata uuid now node_id module_hash = record {
  instance_id = uuid;
  node_id = node_id;
  module_hash = module_hash;
  created_at = now;
  status = starting;
}

pub data ProviderType : Type 0 where
  kv http messaging : ProviderType

-- the derived `PartialEq`
abbrev pub same_type : ProviderType → ProviderType → Bool
same_type kv kv = true
same_type http http = true
same_type messaging messaging = true
same_type _ _ = false

-- the derived `Debug`
abbrev pub debug : ProviderType → String
debug kv = "Kv"
debug http = "Http"
debug messaging = "Messaging"

pub record CapabilityAssignment : Type 0 where
  pub instance_id : String
  pub capability_id : String
  pub provider_type : ProviderType
  pub permissions : List String

unfoldable pub has_permission : CapabilityAssignment → String → Bool
has_permission a permission = contains a.permissions permission

pub data RestartPolicyType : Type 0 where
  never always on_failure : RestartPolicyType

pub record RestartPolicy : Type 0 where
  pub policy_type : RestartPolicyType
  pub max_retries : Option ℕ
  pub backoff_seconds : Option ℕ

abbrev pub default_policy : RestartPolicy
default_policy = record { policy_type = never; max_retries = none; backoff_seconds = none }

abbrev pub always_policy : RestartPolicy
always_policy = record { policy_type = always; max_retries = none; backoff_seconds = none }

abbrev pub on_failure_policy : ℕ → ℕ → RestartPolicy
on_failure_policy max_retries backoff_seconds = record {
  policy_type = on_failure;
  max_retries = some max_retries;
  backoff_seconds = some backoff_seconds;
}

pub record StartInstanceRequest : Type 0 where
  pub module_bytes : List ℕ
  pub capabilities : List CapabilityAssignment
  pub restart_policy : RestartPolicy

pub record StopInstanceRequest : Type 0 where
  pub instance_id : String

pub record QueryInstanceRequest : Type 0 where
  pub instance_id : String

pub record InstanceStatusResponse : Type 0 where
  pub instance_id : String
  pub status : InstanceStatus
  pub node_id : String
  pub created_at : DateTime

pub record ErrorResponse : Type 0 where
  pub error_code : String
  pub message : String
  pub details : Option (HashMap String)
  pub timestamp : DateTime

unfoldable pub new_error : DateTime → String → String → ErrorResponse
new_error now error_code message = record {
  error_code = error_code;
  message = message;
  details = none;
  timestamp = now;
}

pub record ExecutionEvent : Type 0 where
  pub event_type : String
  pub instance_id : String
  pub timestamp : DateTime
  pub details : Option (HashMap String)

unfoldable pub new_event : DateTime → String → String → ExecutionEvent
new_event now event_type instance_id = record {
  event_type = event_type;
  instance_id = instance_id;
  timestamp = now;
  details = none;
}

unfoldable pub with_details : ExecutionEvent → HashMap String → ExecutionEvent
with_details e details = record e { details = some details }
