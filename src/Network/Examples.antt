-- ===== src/Network/Examples.antt =====
-- One node, a start and a query through the control plane, and the theorem there.
use wasmatrix.Prelude.{
  ℕ, ℤ, pos, String, Bool, true, false, ◌≡◌, refl, Option, none, some, List, [], ◌∷◌, ok, err,
}
use wasmatrix.HashMap
use wasmatrix.Core.Types.{DateTime, StartInstanceRequest, running, default_policy}
use wasmatrix.Core.Wasm.{lacks_magic}
use wasmatrix.Proto.Conversion.Codec.{generated, generated-IsGenerated}
use wasmatrix.NodeRouting.Repository.{
  NodeAgentRecord, Repository, new_repository, upsert_node, assign_instance, lookup_instance_node,
  get_node,
}
use wasmatrix.NodeRouting.Service.{start_request_to}
use wasmatrix.NodeRouting.Requests.{route_query_instance}
use wasmatrix.Agent.Node.{Engine, new_agent}
use wasmatrix.Agent.Reporting.{ReportClient}
use wasmatrix.Agent.Server.{new, start_instance}
use wasmatrix.Network.{Servers, replace, network_client}
use wasmatrix.ControlPlane
use wasmatrix.NodeRouting.Recovery.{recover_node_state}
use wasmatrix.Network.Recoveries.{IsTold, recover_node_state-network}
use wasmatrix.Network.Queries.{answered, route_query_instance-start}

abbrev accepting : Engine
accepting = record {
  Module = List ℕ;
  Store = ℕ;
  Instance = List ℕ;
  compile = λ now bytes. ok bytes;
  new_store = 0;
  instantiate = λ now store wasm. ok (wasm, store);
}

abbrev silent : ReportClient
silent = record { State = ℕ; report_status = λ s report. (err "unavailable", s) }

abbrev servers : Servers accepting silent
servers address = new (new_agent accepting "node-1") none

abbrev node : NodeAgentRecord
node = record {
  node_id = "node-1";
  node_address = "http://node-1:50052";
  capabilities = [];
  max_instances = 10;
  active_instances = 0;
  last_heartbeat = none;
  available = true;
}

abbrev repository : Repository
repository = assign_instance (upsert_node new_repository node) "a" "node-1"

abbrev request : StartInstanceRequest
request = record {
  module_bytes = 0 ∷ 97 ∷ 115 ∷ 109 ∷ 1 ∷ [];
  capabilities = [];
  restart_policy = default_policy;
}

abbrev unix_to_utc : ℤ → Option DateTime
unix_to_utc (pos n) = some n
unix_to_utc _ = none

instance_is_placed : lookup_instance_node repository "a" ≡ some "node-1"
unfolding assign_instance upsert_node HashMap.get HashMap.insert HashMap.empty
instance_is_placed = refl

node_is_known : get_node repository "node-1" ≡ some node
unfolding assign_instance upsert_node HashMap.get HashMap.insert HashMap.empty
node_is_known = refl

start_is_accepted :
    (start_instance generated
      (pos 100)
      7
      (servers "http://node-1:50052")
      (start_request_to generated "a" request)).0.success
    ≡ true
unfolding start_instance start_request_to
    wasmatrix.Proto.Conversion.Messages.start_instance_request_of_v1 wasmatrix.Prelude.collect
    wasmatrix.Proto.Conversion.Parts.restart_policy_of_v1
    wasmatrix.Proto.Conversion.Parts.restart_policy_to_v1
    wasmatrix.Proto.Conversion.Parts.restart_policy_type_to_v1
    wasmatrix.Proto.CoreTypes.restart_policy_of_core
    wasmatrix.Proto.CoreTypes.restart_policy_type_of_core
    wasmatrix.Proto.Conversion.Parts.restart_policy_type_of_v1
    wasmatrix.Agent.Node.start_instance_local wasmatrix.Agent.Node.launch lacks_magic
start_is_accepted = refl

no_crash_mark :
    HashMap.contains_key (servers "http://node-1:50052").agent.crashed_instances "a" ≡ false
unfolding HashMap.get HashMap.empty
no_crash_mark = refl

route_query_instance-start_example :
    let start = start_request_to generated "a" request in
    let server = servers "http://node-1:50052" in
    let after =
      replace servers "http://node-1:50052" (start_instance generated (pos 100) 7 server start).1 in
    route_query_instance
      (network_client generated
        (pos 100)
        7
        (λ address req. err "not served")
        (λ address. true)
        after)
      generated
      unix_to_utc
      repository
      (record { instance_id = "a" })
    ≡ ok (answered 0 "a" running)
route_query_instance-start_example =
    route_query_instance-start generated generated-IsGenerated (pos 100) 7
      (λ address req. err "not served") (λ address. true) unix_to_utc 0 refl repository "a" "node-1"
      node instance_is_placed node_is_known refl servers request start_is_accepted no_crash_mark

-- the servers after the start
abbrev busy : Servers accepting silent
busy =
    replace servers "http://node-1:50052"
      (start_instance generated (pos 100) 7 (servers "http://node-1:50052")
        (start_request_to generated "a" request)).1

recover_node_state-network_example :
    IsTold generated generated-IsGenerated unix_to_utc 0 refl
      (pos 100)
      7
      (λ address req. err "not served")
      (λ address. true)
      busy
      (ControlPlane.new "control")
      repository
      "node-1"
      node
      node_is_known
      refl
      (recover_node_state
        (network_client generated
          (pos 100)
          7
          (λ address req. err "not served")
          (λ address. true)
          busy)
        generated
        unix_to_utc
        "node-1"
        (ControlPlane.new "control", repository))
recover_node_state-network_example =
    recover_node_state-network generated generated-IsGenerated unix_to_utc 0 refl (pos 100) 7
      (λ address req. err "not served") (λ address. true) busy (ControlPlane.new "control")
      repository "node-1" node node_is_known refl
