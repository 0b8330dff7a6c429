-- ===== src/Proto/Protocol.antt =====
-- The message types of crates/wasmatrix-proto/src/protocol.rs. `instance` of a query's response is
-- `instance_of` here.
use wasmatrix.Prelude.{ℕ, ℤ, String, Bool, List, Option}

pub data ProviderType : Type 0 where
  kv : ProviderType
  http : ProviderType
  messaging : ProviderType

pub data InstanceStatus : Type 0 where
  starting : InstanceStatus
  running : InstanceStatus
  stopped : InstanceStatus
  crashed : InstanceStatus

pub data RestartPolicyType : Type 0 where
  never : RestartPolicyType
  always : RestartPolicyType
  on_failure : RestartPolicyType

pub record CapabilityAssignment : Type 0 where
  pub instance_id : String
  pub capability_id : String
  pub provider_type : ProviderType
  pub permissions : List String

pub record InstanceMetadata : Type 0 where
  pub instance_id : String
  pub node_id : String
  pub module_hash : String
  pub created_at : ℤ
  pub status : InstanceStatus

pub record RestartPolicy : Type 0 where
  pub policy_type : RestartPolicyType
  pub max_retries : Option ℕ
  pub backoff_seconds : Option ℕ

pub record StartInstanceRequest : Type 0 where
  pub instance_id : String
  pub module_bytes : List ℕ
  pub capabilities : List CapabilityAssignment
  pub restart_policy : RestartPolicy

pub record StartInstanceResponse : Type 0 where
  pub success : Bool
  pub message : String
  pub error_code : Option String

pub record StopInstanceRequest : Type 0 where
  pub instance_id : String

pub record StopInstanceResponse : Type 0 where
  pub success : Bool
  pub message : String
  pub error_code : Option String

pub record QueryInstanceRequest : Type 0 where
  pub instance_id : String

pub record QueryInstanceResponse : Type 0 where
  pub success : Bool
  pub instance_of : Option InstanceMetadata
  pub error_code : Option String

pub record ListInstancesRequest : Type 0 where

pub record ListInstancesResponse : Type 0 where
  pub success : Bool
  pub instances : List InstanceMetadata

pub record InvokeCapabilityRequest : Type 0 where
  pub instance_id : String
  pub capability_id : String
  pub provider_type : ProviderType
  pub operation : String
  pub params_json : String
  pub permissions : List String

pub record InvokeCapabilityResponse : Type 0 where
  pub success : Bool
  pub message : String
  pub result_json : Option String
  pub error_code : Option String

pub record RegisterNodeRequest : Type 0 where
  pub node_id : String
  pub node_address : String
  pub capabilities : List String
  pub max_instances : ℕ

pub record RegisterNodeResponse : Type 0 where
  pub success : Bool
  pub message : String
  pub error_code : Option String

pub record InstanceStatusUpdate : Type 0 where
  pub instance_id : String
  pub status : InstanceStatus
  pub error_message : Option String

pub record StatusReport : Type 0 where
  pub node_id : String
  pub instance_updates : List InstanceStatusUpdate
  pub timestamp : ℤ

pub record StatusReportResponse : Type 0 where
  pub success : Bool
  pub message : String
