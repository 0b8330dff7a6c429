-- ===== src/NodeRouting/Repository.antt =====
-- `InMemoryNodeRoutingRepository` of
-- crates/wasmatrix-control-plane/src/features/node_routing/repo/mod.rs.
pub mod Changes
use wasmatrix.Prelude.{
  ℕ, ◌+◌, ◌-◌, ◌^◌, min, String, Bool, true, List, [], ◌∷◌, Option, none, some, Result, ok, err,
  if◌then◌else◌, ◌<>◌,
}
use wasmatrix.HashMap
use wasmatrix.HashMap.{HashMap}
use wasmatrix.Core.Types.{DateTime}
use wasmatrix.Shared.{ControlPlaneError, instance_not_found, ControlPlaneResult}

pub record NodeAgentRecord : Type 0 where
  pub node_id : String
  pub node_address : String
  pub capabilities : List String
  pub max_instances : ℕ
  pub active_instances : ℕ
  pub last_heartbeat : Option DateTime
  pub available : Bool

pub record ProviderMetadata : Type 0 where
  pub provider_id : String
  pub provider_type : String
  pub node_id : String
  pub last_updated : DateTime

pub record Repository : Type 0 where
  pub nodes : HashMap NodeAgentRecord
  pub assignments : HashMap String
  pub providers : HashMap ProviderMetadata

abbrev pub new_repository : Repository
new_repository = record {
  nodes = HashMap.empty;
  assignments = HashMap.empty;
  providers = HashMap.empty;
}

abbrev pub u32_max : ℕ
u32_max = 2 ^ 32 - 1

abbrev pub node_not_found : String → ControlPlaneError
node_not_found node_id = instance_not_found ("node " <> node_id)

unfoldable pub upsert_node : Repository → NodeAgentRecord → Repository
upsert_node r node = record r { nodes = HashMap.insert r.nodes node.node_id node }

abbrev pub get_node : Repository → String → Option NodeAgentRecord
get_node r node_id = HashMap.get r.nodes node_id

abbrev pub list_nodes : Repository → List NodeAgentRecord
list_nodes r = HashMap.values r.nodes

-- `nodes.get_mut(node_id).ok_or_else(…)?` and the change of the node
unfoldable pub change_node :
    (NodeAgentRecord → NodeAgentRecord)
    → Repository
    → String
    → ControlPlaneResult (Unit {0}) × Repository
change_node change r node_id =
    if HashMap.contains_key r.nodes node_id
    then (ok tt, record r { nodes = HashMap.modify r.nodes node_id change })
    else (err (node_not_found node_id), r)

abbrev pub set_heartbeat : DateTime → NodeAgentRecord → NodeAgentRecord
set_heartbeat heartbeat node = record node { last_heartbeat = some heartbeat; available = true }

abbrev pub set_available : Bool → NodeAgentRecord → NodeAgentRecord
set_available available node = record node { available = available }

-- `saturating_add(1)` and `saturating_sub(1)` on `u32`
abbrev pub count_up : NodeAgentRecord → NodeAgentRecord
count_up node = record node { active_instances = min (node.active_instances + 1) u32_max }

abbrev pub count_down : NodeAgentRecord → NodeAgentRecord
count_down node = record node { active_instances = node.active_instances - 1 }

abbrev pub set_count : ℕ → NodeAgentRecord → NodeAgentRecord
set_count count node = record node { active_instances = count }

abbrev pub update_heartbeat :
    Repository → String → DateTime → ControlPlaneResult (Unit {0}) × Repository
update_heartbeat r node_id heartbeat = change_node (set_heartbeat heartbeat) r node_id

abbrev pub set_availability :
    Repository → String → Bool → ControlPlaneResult (Unit {0}) × Repository
set_availability r node_id available = change_node (set_available available) r node_id

abbrev pub increment_active_instances :
    Repository → String → ControlPlaneResult (Unit {0}) × Repository
increment_active_instances r node_id = change_node count_up r node_id

abbrev pub decrement_active_instances :
    Repository → String → ControlPlaneResult (Unit {0}) × Repository
decrement_active_instances r node_id = change_node count_down r node_id

abbrev pub set_active_instances :
    Repository → String → ℕ → ControlPlaneResult (Unit {0}) × Repository
set_active_instances r node_id count = change_node (set_count count) r node_id

unfoldable pub assign_instance : Repository → String → String → Repository
assign_instance r instance_id node_id = record r {
  assignments = HashMap.insert r.assignments instance_id node_id;
}

abbrev pub lookup_instance_node : Repository → String → Option String
lookup_instance_node r instance_id = HashMap.get r.assignments instance_id

unfoldable pub remove_instance_assignment : Repository → String → Option String × Repository
remove_instance_assignment r instance_id = (
  HashMap.get r.assignments instance_id,
  record r { assignments = HashMap.remove r.assignments instance_id },
)

unfoldable pub upsert_provider_metadata : Repository → ProviderMetadata → Repository
upsert_provider_metadata r provider = record r {
  providers = HashMap.insert r.providers provider.provider_id provider;
}

abbrev pub list_provider_metadata : Repository → List ProviderMetadata
list_provider_metadata r = HashMap.values r.providers
