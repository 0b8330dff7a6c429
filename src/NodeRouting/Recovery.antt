-- ===== src/NodeRouting/Recovery.antt =====
-- Recovery of the instances of a node, `recover_node_state` of
-- crates/wasmatrix-control-plane/src/features/node_routing/service/mod.rs.
pub mod Effects
use wasmatrix.Prelude.{
  ℕ, ℤ, ◌+◌, min, String, Bool, true, false, List, [], ◌∷◌, Option, none, some, Result, ok, err,
  ◌>>=◌, ◌>>◌, map_err, ok_or, fail_if, not, if◌then◌else◌,
}
use wasmatrix.Core.Types.{
  DateTime, InstanceMetadata, InstanceStatus, starting, running, stopped, crashed,
}
use wasmatrix.ControlPlane.{ControlPlane, restore_instance_state}
use wasmatrix.Proto.V1
use wasmatrix.Shared.{
  ControlPlaneError, ControlPlaneResult, validation_error, wasm_runtime_error, timeout,
}
use wasmatrix.NodeRouting.Repository.{
  NodeAgentRecord, Repository, get_node, node_not_found, assign_instance, set_active_instances,
  u32_max,
}
use wasmatrix.NodeRouting.Service.{Client}
use wasmatrix.NodeRouting.Requests.{read_status}

-- the metadata of a report, or the error that ends the recovery
unfoldable pub read_metadata :
    V1.Generated → (ℤ → Option DateTime) → V1.InstanceMetadata → ControlPlaneResult InstanceMetadata
read_metadata g unix_to_utc meta = do
  status ← read_status g meta.status
  created_at ← ok_or (unix_to_utc meta.created_at) (validation_error "invalid created_at timestamp")
  ok (record {
    instance_id = meta.instance_id;
    node_id = meta.node_id;
    module_hash = meta.module_hash;
    created_at = created_at;
    status = status;
  })

abbrev pub is_active : InstanceStatus → Bool
is_active starting = true
is_active running = true
is_active stopped = false
is_active crashed = false

-- the loop, with the counts of recovered and of active instances so far
unfoldable pub apply_from :
    V1.Generated
    → (ℤ → Option DateTime)
    → String
    → List V1.InstanceMetadata
    → ℕ
    → ℕ
    → ControlPlane × Repository
    → ControlPlaneResult ℕ × (ControlPlane × Repository)
apply_from g unix_to_utc node_id [] recovered active_count (cp, r) =
    let (counted, after) = set_active_instances r node_id active_count in
    elim counted [ err e ↦ (err e, (cp, after)) | ok _ ↦ (ok recovered, (cp, after)) ]
apply_from g unix_to_utc node_id (meta ∷ metas) recovered active_count (cp, r) =
    elim (read_metadata g unix_to_utc meta) [
      | err e ↦ (err e, (cp, r))
      | ok metadata ↦
          apply_from g unix_to_utc node_id metas (recovered + 1)
            (if is_active metadata.status then min (active_count + 1) u32_max else active_count)
            (restore_instance_state cp metadata [], assign_instance r metadata.instance_id node_id)
    ]

unfoldable pub apply_recovered_instances :
    V1.Generated
    → (ℤ → Option DateTime)
    → String
    → List V1.InstanceMetadata
    → ControlPlane × Repository
    → ControlPlaneResult ℕ × (ControlPlane × Repository)
apply_recovered_instances g unix_to_utc node_id instances state =
    apply_from g unix_to_utc node_id instances 0 0 state

-- the instances that the node's agent lists
unfoldable pub ask_instances :
    Client → Repository → String → ControlPlaneResult (List V1.InstanceMetadata)
ask_instances client r node_id = do
  node ← ok_or (get_node r node_id) (node_not_found node_id)
  _ ← map_err timeout (client.connect node.node_address)
  response ← map_err timeout (client.list_instances node.node_address (record {}))
  fail_if (not response.success) (wasm_runtime_error "failed to recover node instances")
  ok response.instances

unfoldable pub recover_node_state :
    Client
    → V1.Generated
    → (ℤ → Option DateTime)
    → String
    → ControlPlane × Repository
    → ControlPlaneResult ℕ × (ControlPlane × Repository)
recover_node_state client g unix_to_utc node_id (cp, r) = elim (ask_instances client r node_id) [
  | err e ↦ (err e, (cp, r))
  | ok instances ↦ apply_recovered_instances g unix_to_utc node_id instances (cp, r)
]
