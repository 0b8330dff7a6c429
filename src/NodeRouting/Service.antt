-- ===== src/NodeRouting/Service.antt =====
-- `NodeRoutingService` of crates/wasmatrix-control-plane/src/features/node_routing/service/mod.rs:
-- registration, status reports and starts. The gRPC client is the parameter `client`: what a node's
-- agent answers to the calls of one operation; the text of an error is what its `Display` prints.
pub mod Start
use wasmatrix.Prelude.{
  ℕ, ℤ, String, Bool, true, false, List, [], ◌∷◌, ◌++◌, Option, none, some, Result, ok, err, map,
  is_empty, if◌then◌else◌, format, ◌<>◌,
}
use wasmatrix.Core.Types.{DateTime, CapabilityAssignment, StartInstanceRequest}
use wasmatrix.Proto.Protocol
use wasmatrix.Proto.V1
use wasmatrix.Proto.CoreTypes.{provider_type_of_core, restart_policy_of_core}
use wasmatrix.Proto.Conversion.Parts.{capability_assignment_to_v1, restart_policy_to_v1}
use wasmatrix.Shared.{
  ControlPlaneError, ControlPlaneResult, storage_error, validation_error, resource_exhausted,
  timeout,
}
use wasmatrix.NodeRouting.Repository.{
  NodeAgentRecord, Repository, upsert_node, upsert_provider_metadata, list_nodes, update_heartbeat,
  set_availability, increment_active_instances, assign_instance,
}
use wasmatrix.NodeRouting.Etcd.{EtcdMetadataRepository, put_node_presence, put_provider_metadata}
use wasmatrix.NodeRouting.Selection.{select_candidate_nodes, normalize_endpoint}

pub record Client : Type 0 where
  pub connect : String → Result (Unit {0}) String
  pub start_instance : String → V1.StartInstanceRequest → Result V1.StartInstanceResponse String
  pub stop_instance : String → V1.StopInstanceRequest → Result V1.StopInstanceResponse String
  pub query_instance : String → V1.QueryInstanceRequest → Result V1.QueryInstanceResponse String
  pub list_instances : String → V1.ListInstancesRequest → Result V1.ListInstancesResponse String
  pub invoke_capability :
      String → V1.InvokeCapabilityRequest → Result V1.InvokeCapabilityResponse String

pub record NodeRoutingService : Type 0 where
  pub repo : Repository
  pub etcd_metadata_repo : Option EtcdMetadataRepository

-- a write to the optional store after a change of the repository
abbrev pub with_etcd :
    NodeRoutingService
    → (EtcdMetadataRepository → Result (Unit {0}) String × EtcdMetadataRepository)
    → ControlPlaneResult (Unit {0}) × NodeRoutingService
with_etcd service put = elim service.etcd_metadata_repo [
  | none ↦ (ok tt, service)
  | some etcd ↦
      let (written, stored) = put etcd in
      let after = record service { etcd_metadata_repo = some stored } in
      elim written [ ok _ ↦ (ok tt, after) | err e ↦ (err (storage_error e), after) ]
]

unfoldable pub register_node :
    (DateTime → String)
    → DateTime
    → NodeRoutingService
    → String
    → String
    → List String
    → ℕ
    → ControlPlaneResult (Unit {0}) × NodeRoutingService
register_node to_rfc3339 now service node_id node_address capabilities max_instances =
    let registered = record service {
      repo = upsert_node service.repo (record {
        node_id = node_id;
        node_address = normalize_endpoint node_address;
        capabilities = capabilities;
        max_instances = max_instances;
        active_instances = 0;
        last_heartbeat = some now;
        available = true;
      });
    } in
    with_etcd registered
      (λ etcd. put_node_presence to_rfc3339 etcd node_id (normalize_endpoint node_address) now)

unfoldable pub register_provider_metadata :
    (DateTime → String)
    → DateTime
    → NodeRoutingService
    → String
    → String
    → String
    → ControlPlaneResult (Unit {0}) × NodeRoutingService
register_provider_metadata to_rfc3339 now service provider_id provider_type node_id =
    let registered = record service {
      repo = upsert_provider_metadata service.repo (record {
        provider_id = provider_id;
        provider_type = provider_type;
        node_id = node_id;
        last_updated = now;
      });
    } in
    with_etcd registered
      (λ etcd. put_provider_metadata to_rfc3339 etcd provider_id provider_type node_id now)

unfoldable pub record_status_report :
    (ℤ → Option DateTime) → Repository → String → ℤ → ControlPlaneResult (Unit {0}) × Repository
record_status_report unix_to_utc r node_id timestamp = elim (unix_to_utc timestamp) [
  | none ↦ (err (validation_error "invalid status report timestamp"), r)
  | some heartbeat ↦ update_heartbeat r node_id heartbeat
]

-- the request that each candidate gets
unfoldable pub start_request_to :
    V1.Generated → String → StartInstanceRequest → V1.StartInstanceRequest
start_request_to g instance_id request = record {
  instance_id = instance_id;
  module_bytes = request.module_bytes;
  capabilities =
      map
        (λ (cap : CapabilityAssignment). capability_assignment_to_v1 g (record {
          instance_id = instance_id;
          capability_id = cap.capability_id;
          provider_type = provider_type_of_core cap.provider_type;
          permissions = cap.permissions;
        }))
        request.capabilities;
  restart_policy = some (restart_policy_to_v1 g (restart_policy_of_core request.restart_policy));
}

abbrev pub join : String → List String → String
join separator [] = ""
join separator (s ∷ []) = s
join separator (s ∷ t ∷ ts) = s <> separator <> join separator (t ∷ ts)

-- the repository's changes after a node accepted
unfoldable pub accept_start : Repository → String → String → ControlPlaneResult String × Repository
accept_start r instance_id node_id =
    let (counted, after_count) =
      increment_active_instances (assign_instance r instance_id node_id) node_id in
    elim counted [
      | err e ↦ (err e, after_count)
      | ok _ ↦
          let (marked, after_mark) = set_availability after_count node_id true in
          elim marked [ err e ↦ (err e, after_mark) | ok _ ↦ (ok instance_id, after_mark) ]
    ]

-- the loop over the candidates
unfoldable pub try_nodes :
    Client
    → String
    → V1.StartInstanceRequest
    → List NodeAgentRecord
    → Repository
    → List String
    → ControlPlaneResult String × Repository
try_nodes client instance_id request [] r errors =
    (err (timeout ("No available node agent accepted start request: " <> join " | " errors)), r)
try_nodes client instance_id request (node ∷ nodes) r errors =
    elim (client.connect node.node_address) [
      | err e ↦
          try_nodes client instance_id request nodes (set_availability r node.node_id false).1
            (errors ++ (format (node.node_id ∷ ": " ∷ e ∷ []) ∷ []))
      | ok _ ↦ elim (client.start_instance node.node_address request) [
        | err e ↦
            try_nodes client instance_id request nodes (set_availability r node.node_id false).1
              (errors ++ (format (node.node_id ∷ ": " ∷ e ∷ []) ∷ []))
        | ok response ↦ elim response.success [
          | true ↦ accept_start r instance_id node.node_id
          | false ↦
              try_nodes client instance_id request nodes r
                (errors ++ (format (node.node_id ∷ ": " ∷ response.message ∷ []) ∷ []))
        ]
      ]
    ]

unfoldable pub route_start_instance :
    Client
    → V1.Generated
    → String
    → Repository
    → StartInstanceRequest
    → ControlPlaneResult String × Repository
route_start_instance client g uuid r request =
    let candidates = select_candidate_nodes (list_nodes r) request in
    if is_empty candidates
    then (err (resource_exhausted "No registered node agents"), r)
    else try_nodes client uuid (start_request_to g uuid request) candidates r []
