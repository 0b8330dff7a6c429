-- ===== src/NodeRouting/Examples.antt =====
-- A service with one node whose agent accepts every start, and the calls on it.
use wasmatrix.Prelude.{
  ℤ, pos, negsuc, String, true, List, [], ◌∷◌, Option, none, some, Result, ok, err, ◌≡◌, refl,
  find_first, collect, contains,
}
use wasmatrix.HashMap
use wasmatrix.Core.Types.{
  DateTime, StartInstanceRequest, default_policy, InstanceMetadata, CapabilityAssignment, kv,
  running, has_permission,
}
use wasmatrix.ControlPlane
use wasmatrix.ControlPlane.{ControlPlane}
use wasmatrix.Core.Capability.{required_permission}
use wasmatrix.Proto.V1
use wasmatrix.Proto.CoreTypes.{instance_status_to_core}
use wasmatrix.Proto.Conversion.Parts.{instance_status_of_v1}
use wasmatrix.Proto.Conversion.Codec.{generated}
use wasmatrix.NodeRouting.Repository.{
  NodeAgentRecord, ProviderMetadata, Repository, new_repository, upsert_node, assign_instance,
  upsert_provider_metadata, list_nodes,
}
use wasmatrix.NodeRouting.Repository.Changes.{
  IsRouted, new_repository-IsRouted, upsert_node-IsRouted,
}
use wasmatrix.NodeRouting.Selection.{select_candidate_nodes}
use wasmatrix.NodeRouting.Selection.Order.{IsSortedBy, select_candidate_nodes-exact}
use wasmatrix.NodeRouting.Service.{Client, route_start_instance, start_request_to}
use wasmatrix.NodeRouting.Service.Start.{accepts, IsStarted, route_start_instance-first}
use wasmatrix.NodeRouting.Requests.{
  Json, authorize_invocation, route_stop_instance, route_capability_invocation, read_status,
}
use wasmatrix.NodeRouting.Requests.Outcomes.{
  IsStopped, confirmed, IsAuthorized, route_stop_instance-exact,
  route_capability_invocation-IsAuthorized,
}
use wasmatrix.NodeRouting.Recovery.{read_metadata, apply_recovered_instances}
use wasmatrix.NodeRouting.Recovery.Effects.{IsRecovered, apply_recovered_instances-IsRecovered}
use wasmatrix.NodeRouting.Runs.{registers, starts, IsSound, run, new_state, routing_run-IsSound}

abbrev done : Result V1.StopInstanceResponse String
done = ok (record { success = true; message = "ok"; error_code = none })

abbrev willing : Client
willing = record {
  connect = λ address. ok tt;
  start_instance =
      λ address request. ok (record { success = true; message = "ok"; error_code = none });
  stop_instance = λ address request. done;
  query_instance = λ address request. err "unavailable";
  list_instances = λ address request. ok (record { success = true; instances = [] });
  invoke_capability = λ address request.
      ok (record { success = true; message = "ok"; result_json = some "1"; error_code = none });
}

abbrev node : NodeAgentRecord
node = record {
  node_id = "node-1";
  node_address = "http://127.0.0.1:50052";
  capabilities = "kv" ∷ [];
  max_instances = 10;
  active_instances = 0;
  last_heartbeat = none;
  available = true;
}

abbrev provider : ProviderMetadata
provider = record {
  provider_id = "kv-1";
  provider_type = "kv";
  node_id = "node-1";
  last_updated = 0;
}

abbrev one_node : Repository
one_node = upsert_node new_repository node

one_node-IsRouted : IsRouted one_node
one_node-IsRouted = upsert_node-IsRouted new_repository new_repository-IsRouted node

abbrev request : StartInstanceRequest
request = record {
  module_bytes = 0 ∷ 97 ∷ 115 ∷ 109 ∷ [];
  capabilities = [];
  restart_policy = default_policy;
}

select_candidate_nodes-exact_example :
    IsSortedBy
      (λ (n : NodeAgentRecord). n.active_instances)
      (select_candidate_nodes (node ∷ []) request)
select_candidate_nodes-exact_example = (select_candidate_nodes-exact (node ∷ []) request).0

route_start_instance-first_example :
    IsStarted one_node "a"
      (find_first
        (accepts willing (start_request_to generated "a" request))
        (select_candidate_nodes (list_nodes one_node) request))
      (route_start_instance willing generated "a" one_node request)
route_start_instance-first_example =
    route_start_instance-first willing generated "a" one_node request one_node-IsRouted

abbrev placed : Repository
placed = upsert_provider_metadata (assign_instance one_node "a" "node-1") provider

route_stop_instance-exact_example :
    IsStopped placed "a" (confirmed willing placed "a") (route_stop_instance willing placed "a")
route_stop_instance-exact_example = route_stop_instance-exact willing placed "a"

abbrev texts : Json
texts = record { Value = String; to_string = λ s. s; from_str = λ s. ok s }

abbrev assignment : CapabilityAssignment
assignment = record {
  instance_id = "a";
  capability_id = "kv-1";
  provider_type = kv;
  permissions = "kv:read" ∷ [];
}

invocation_returns :
    route_capability_invocation willing generated texts placed "a" assignment "get" "{}" ≡ ok "1"
unfolding route_capability_invocation authorize_invocation HashMap.get upsert_provider_metadata
    assign_instance HashMap.insert upsert_node HashMap.empty required_permission has_permission
    contains find_first HashMap.values
invocation_returns = refl

route_capability_invocation-IsAuthorized_example :
    (n : NodeAgentRecord) × IsAuthorized placed "a" assignment "get" n
route_capability_invocation-IsAuthorized_example =
    route_capability_invocation-IsAuthorized willing generated texts placed "a" assignment "get"
      "{}" "1" invocation_returns

abbrev unix_to_utc : ℤ → Option DateTime
unix_to_utc (pos k) = some k
unix_to_utc (negsuc k) = none

abbrev reported : List V1.InstanceMetadata
reported =
    record {
      instance_id = "a";
      node_id = "local";
      module_hash = "abc";
      created_at = pos 42;
      status = pos 2;
    }
    ∷ []

abbrev recovered : List InstanceMetadata
recovered =
    record {
      instance_id = "a";
      node_id = "local";
      module_hash = "abc";
      created_at = 42;
      status = running;
    }
    ∷ []

reported_is_read : collect (read_metadata generated unix_to_utc) reported ≡ ok recovered
unfolding read_metadata collect read_status instance_status_of_v1 instance_status_to_core
reported_is_read = refl

node_is_known : HashMap.contains_key one_node.nodes "node-1" ≡ true
unfolding upsert_node HashMap.get HashMap.insert HashMap.empty
node_is_known = refl

apply_recovered_instances-IsRecovered_example :
    IsRecovered "node-1" recovered 0 0
      (ControlPlane.new "cp", one_node)
      (apply_recovered_instances generated unix_to_utc "node-1" reported
        (ControlPlane.new "cp", one_node))
apply_recovered_instances-IsRecovered_example =
    apply_recovered_instances-IsRecovered generated unix_to_utc "node-1" reported recovered
      (ControlPlane.new "cp") one_node node_is_known reported_is_read

routing_run-IsSound_example :
    IsSound
      (run generated
        (λ t. "")
        unix_to_utc
        (new_state "cp" true)
        ((1, registers "node-1" "127.0.0.1:50052" [] 10)
          ∷ (2, starts willing "a" request)
          ∷ [])).service
routing_run-IsSound_example =
    routing_run-IsSound generated (λ t. "") unix_to_utc "cp" true
      ((1, registers "node-1" "127.0.0.1:50052" [] 10) ∷ (2, starts willing "a" request) ∷ [])
