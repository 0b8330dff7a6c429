-- ===== src/Proto/V1.antt =====
-- The messages of crates/wasmatrix-proto/proto/wasmatrix.proto as the build makes them types: an
-- enumeration is an `i32` where it stands in a message. How the build turns an enumeration into an
-- `i32` and back is a parameter, with the law that the two are inverse where both are defined.
use wasmatrix.Prelude.{ℕ, ℤ, String, Bool, List, Option, some, ◌≡◌, ◌↔◌}

pub data ProviderType : Type 0 where
  unspecified_provider_type : ProviderType
  kv : ProviderType
  http : ProviderType
  messaging : ProviderType

pub data InstanceStatus : Type 0 where
  unspecified_instance_status : InstanceStatus
  starting : InstanceStatus
  running : InstanceStatus
  stopped : InstanceStatus
  crashed : InstanceStatus

pub data RestartPolicyType : Type 0 where
  unspecified_restart_policy_type : RestartPolicyType
  never : RestartPolicyType
  always : RestartPolicyType
  on_failure : RestartPolicyType

pub record CapabilityAssignment : Type 0 where
  pub instance_id : String
  pub capability_id : String
  pub provider_type : ℤ
  pub permissions : List String

pub record InstanceMetadata : Type 0 where
  pub instance_id : String
  pub node_id : String
  pub module_hash : String
  pub created_at : ℤ
  pub status : ℤ

pub record RestartPolicy : Type 0 where
  pub policy_type : ℤ
  pub max_retries : Option ℕ
  pub backoff_seconds : Option ℕ

pub record StartInstanceRequest : Type 0 where
  pub instance_id : String
  pub module_bytes : List ℕ
  pub capabilities : List CapabilityAssignment
  pub restart_policy : Option RestartPolicy

pub record StartInstanceResponse : Type 0 where
  pub success : Bool
  pub message : String
  pub error_code : Option String

pub record StopInstanceRequest : Type 0 where
  pub instance_id : String

pub record StopInstanceResponse : Type 0 where
  pub success : Bool
  pub message : String
  pub error_code : Option String

pub record QueryInstanceRequest : Type 0 where
  pub instance_id : String

pub record QueryInstanceResponse : Type 0 where
  pub success : Bool
  pub instance_of : Option InstanceMetadata
  pub error_code : Option String

pub record ListInstancesRequest : Type 0 where

pub record ListInstancesResponse : Type 0 where
  pub success : Bool
  pub instances : List InstanceMetadata

pub record InvokeCapabilityRequest : Type 0 where
  pub instance_id : String
  pub capability_id : String
  pub provider_type : ℤ
  pub operation : String
  pub params_json : String
  pub permissions : List String

pub record InvokeCapabilityResponse : Type 0 where
  pub success : Bool
  pub message : String
  pub result_json : Option String
  pub error_code : Option String

pub record RegisterNodeRequest : Type 0 where
  pub node_id : String
  pub node_address : String
  pub capabilities : List String
  pub max_instances : ℕ

pub record RegisterNodeResponse : Type 0 where
  pub success : Bool
  pub message : String
  pub error_code : Option String

pub record InstanceStatusUpdate : Type 0 where
  pub instance_id : String
  pub status : ℤ
  pub error_message : Option String

pub record StatusReport : Type 0 where
  pub node_id : String
  pub instance_updates : List InstanceStatusUpdate
  pub timestamp : ℤ

pub record StatusReportResponse : Type 0 where
  pub success : Bool
  pub message : String

-- `i32::from(e)` and `E::try_from(n)`, whose error no caller reads
pub record Enumeration (E : Type 0) : Type 0 where
  pub to_i32 : E → ℤ
  pub of_i32 : ℤ → Option E

pub record Generated : Type 0 where
  pub provider_type : Enumeration ProviderType
  pub instance_status : Enumeration InstanceStatus
  pub restart_policy_type : Enumeration RestartPolicyType

-- a number is read as a variant exactly if the variant is written as the number
abbrev pub IsCodec : (E : Type 0) → Enumeration E → Type 0
IsCodec E enumeration =
    (n : ℤ) (e : E) → (enumeration.of_i32 n ≡ some e) ↔ (enumeration.to_i32 e ≡ n)

pub record IsGenerated (generated : Generated) : Type 0 where
  pub provider_types : IsCodec _ generated.provider_type
  pub instance_statuses : IsCodec _ generated.instance_status
  pub restart_policy_types : IsCodec _ generated.restart_policy_type
