-- ===== src/NodeRouting/Requests.antt =====
-- `NodeRoutingService` of crates/wasmatrix-control-plane/src/features/node_routing/service/mod.rs:
-- stops, queries, lists and capability invocations. serde_json is the parameter `Json`, the time of
-- a Unix timestamp the parameter `unix_to_utc`.
pub mod Outcomes
use wasmatrix.Prelude.{
  ℕ, ℤ, String, Bool, true, false, List, [], ◌∷◌, ◌++◌, Option, none, some, Result, ok, err, ◌>>=◌,
  ◌>>◌, map_err, ok_or, fail_if, not, ◌==◌, unwrap_or, if◌then◌else◌, format, ◌<>◌, find_first,
}
use wasmatrix.HashMap
use wasmatrix.Core.Types.{
  DateTime, CapabilityAssignment, has_permission, InstanceMetadata, InstanceStatus,
  QueryInstanceRequest, InstanceStatusResponse, debug,
}
use wasmatrix.Core.Capability.{required_permission}
use wasmatrix.Proto.V1
use wasmatrix.Proto.CoreTypes.{provider_type_of_core, instance_status_to_core}
use wasmatrix.Proto.Conversion.Parts.{instance_status_of_v1, provider_type_to_v1}
use wasmatrix.Shared.{
  ControlPlaneError, ControlPlaneResult, instance_not_found, capability_not_found,
  permission_denied, validation_error, wasm_runtime_error, timeout,
}
use wasmatrix.NodeRouting.Repository.{
  NodeAgentRecord, ProviderMetadata, Repository, get_node, list_nodes, lookup_instance_node,
  node_not_found, list_provider_metadata, set_availability, decrement_active_instances,
  remove_instance_assignment,
}
use wasmatrix.NodeRouting.Selection.{provider_type_to_string}
use wasmatrix.NodeRouting.Service.{Client}

-- the node of an instance, and the connection to its agent
unfoldable pub reach_node :
    Client → Repository → String → ControlPlaneResult (String × NodeAgentRecord)
reach_node client r instance_id = do
  node_id ← ok_or (lookup_instance_node r instance_id) (instance_not_found instance_id)
  node ← ok_or (get_node r node_id) (node_not_found node_id)
  _ ← map_err timeout (client.connect node.node_address)
  ok (node_id, node)

-- the answer of the agent to a stop
unfoldable pub ask_stop : Client → Repository → String → ControlPlaneResult String
ask_stop client r instance_id = do
  (node_id, node) ← reach_node client r instance_id
  response ←
      map_err timeout
        (client.stop_instance node.node_address (record { instance_id = instance_id }))
  fail_if (not response.success) (wasm_runtime_error response.message)
  ok node_id

unfoldable pub route_stop_instance :
    Client → Repository → String → ControlPlaneResult (Unit {0}) × Repository
route_stop_instance client r instance_id = elim (ask_stop client r instance_id) [
  | err e ↦ (err e, r)
  | ok node_id ↦ decrement_active_instances (remove_instance_assignment r instance_id).1 node_id
]

-- the status that a number on the wire stands for
unfoldable pub read_status : V1.Generated → ℤ → ControlPlaneResult InstanceStatus
read_status g n = do
  status_proto ← ok_or (g.instance_status.of_i32 n) (validation_error "invalid instance status")
  status ← map_err validation_error (instance_status_of_v1 status_proto)
  ok (instance_status_to_core status)

unfoldable pub route_query_instance :
    Client
    → V1.Generated
    → (ℤ → Option DateTime)
    → Repository
    → QueryInstanceRequest
    → ControlPlaneResult InstanceStatusResponse
route_query_instance client g unix_to_utc r request = do
  (node_id, node) ← reach_node client r request.instance_id
  response ←
      map_err timeout
        (client.query_instance node.node_address (record { instance_id = request.instance_id }))
  fail_if (not response.success) (wasm_runtime_error (unwrap_or response.error_code "QUERY_FAILED"))
  meta ← ok_or response.instance_of (instance_not_found request.instance_id)
  status ← read_status g meta.status
  created_at ← ok_or (unix_to_utc meta.created_at) (validation_error "invalid created_at timestamp")
  ok (record {
    instance_id = meta.instance_id;
    status = status;
    node_id = meta.node_id;
    created_at = created_at;
  })

-- the metadata that a list keeps: those it can read
unfoldable pub readable :
    V1.Generated → (ℤ → Option DateTime) → List V1.InstanceMetadata → List InstanceMetadata
readable g unix_to_utc [] = []
readable g unix_to_utc (meta ∷ metas) =
    let rest = readable g unix_to_utc metas in
    elim (read_status g meta.status) [
      | err _ ↦ rest
      | ok status ↦ elim (unix_to_utc meta.created_at) [
        | none ↦ rest
        | some created_at ↦
            record {
              instance_id = meta.instance_id;
              node_id = meta.node_id;
              module_hash = meta.module_hash;
              created_at = created_at;
              status = status;
            }
            ∷ rest
      ]
    ]

-- the loop over the nodes
unfoldable pub list_from :
    Client
    → V1.Generated
    → (ℤ → Option DateTime)
    → List NodeAgentRecord
    → Repository
    → List InstanceMetadata × Repository
list_from client g unix_to_utc [] r = ([], r)
list_from client g unix_to_utc (node ∷ nodes) r = elim (client.connect node.node_address) [
  | err _ ↦ list_from client g unix_to_utc nodes (set_availability r node.node_id false).1
  | ok _ ↦ elim (client.list_instances node.node_address (record {})) [
    | err _ ↦ list_from client g unix_to_utc nodes (set_availability r node.node_id false).1
    | ok response ↦ elim response.success [
      | false ↦ list_from client g unix_to_utc nodes r
      | true ↦
          let (others, after) = list_from client g unix_to_utc nodes r in
          (readable g unix_to_utc response.instances ++ others, after)
    ]
  ]
]

unfoldable pub route_list_instances :
    Client
    → V1.Generated
    → (ℤ → Option DateTime)
    → Repository
    → ControlPlaneResult (List InstanceMetadata) × Repository
route_list_instances client g unix_to_utc r =
    let (all_instances, after) = list_from client g unix_to_utc (list_nodes r) r in
    (ok all_instances, after)

-- what the service uses of serde_json
pub record Json : Type 1 where
  pub Value : Type 0
  pub to_string : Value → String
  pub from_str : String → Result Value String

-- the checks before a provider's node is called
unfoldable pub authorize_invocation :
    Repository → String → CapabilityAssignment → String → ControlPlaneResult NodeAgentRecord
authorize_invocation r instance_id assignment operation = do
  fail_if (not (assignment.instance_id == instance_id))
      (permission_denied "capability assignment instance_id mismatch")
  _ ← ok_or (lookup_instance_node r instance_id) (instance_not_found instance_id)
  required ← ok_or (required_permission assignment.provider_type operation) (
      validation_error (
        format (
          "unknown operation '"
          ∷ operation
          ∷ "' for provider type "
          ∷ debug assignment.provider_type
          ∷ [])))
  fail_if (not (has_permission assignment required)) (
      permission_denied (
        format
          ("instance '" ∷ instance_id ∷ "' lacks required permission '" ∷ required ∷ "'" ∷ [])))
  provider ←
      ok_or (find_first (λ p. p.provider_id == assignment.capability_id) (list_provider_metadata r))
        (capability_not_found
          (format ("provider '" ∷ assignment.capability_id ∷ "' metadata not found" ∷ [])))
  fail_if (not (provider.provider_type == provider_type_to_string assignment.provider_type)) (
      validation_error (
        format (
          "provider type mismatch: expected '"
          ∷ provider_type_to_string assignment.provider_type
          ∷ "', got '"
          ∷ provider.provider_type
          ∷ "'"
          ∷ [])))
  ok_or (get_node r provider.node_id) (node_not_found provider.node_id)

unfoldable pub route_capability_invocation :
    Client
    → V1.Generated
    → (json : Json) → Repository
    → String
    → CapabilityAssignment
    → String
    → json.Value
    → ControlPlaneResult json.Value
route_capability_invocation client g json r instance_id assignment operation params = do
  node ← authorize_invocation r instance_id assignment operation
  _ ← map_err timeout (client.connect node.node_address)
  response ← map_err timeout (
      client.invoke_capability node.node_address (record {
        instance_id = instance_id;
        capability_id = assignment.capability_id;
        provider_type =
            g.provider_type.to_i32
              (provider_type_to_v1 (provider_type_of_core assignment.provider_type));
        operation = operation;
        params_json = json.to_string params;
        permissions = assignment.permissions;
      }))
  fail_if (not response.success) (wasm_runtime_error response.message)
  map_err (λ e. validation_error ("invalid result_json from provider invocation: " <> e))
      (json.from_str (unwrap_or response.result_json ""))
