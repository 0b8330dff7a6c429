-- ===== src/Agent/ServerExamples.antt =====
-- The server of the agent and its reports at concrete inputs, and the theorems there.
use wasmatrix.Prelude.{
  ℕ, ℤ, pos, String, true, ◌≡◌, refl, Option, none, some, List, [], ◌∷◌, ok, is_ok,
}
use mathlib.Core.Option
use wasmatrix.HashMap
use wasmatrix.HashMap.{HashMap}
use wasmatrix.Core.Types.{DateTime, new_metadata}
use wasmatrix.ControlPlane
use wasmatrix.Proto.V1
use wasmatrix.Proto.Conversion.Codec.{generated, generated-IsGenerated}
use wasmatrix.Proto.Conversion.Messages.{start_instance_request_of_v1}
use wasmatrix.NodeRouting.Repository.{new_repository, upsert_node}
use wasmatrix.Server.{ControlPlaneServer, handle_report_status}
use wasmatrix.Agent.Node.{Engine, new_agent}
use wasmatrix.Agent.Reporting.{ReportClient, report_of, heartbeat_updates}
use wasmatrix.Agent.Reporting.Heartbeats.{as_reported, handle_report_status-heartbeat}
use wasmatrix.Agent.Server.{NodeAgentServer, new, start_instance, stop_instance}
use wasmatrix.Agent.Server.Responses.{start_and_stop_outcomes, IsStarted, IsStopped}

abbrev accepting : Engine
accepting = record {
  Module = List ℕ;
  Store = ℕ;
  Instance = List ℕ;
  compile = λ now bytes. ok bytes;
  new_store = 0;
  instantiate = λ now store wasm. ok (wasm, store);
}

-- a control plane that keeps the reports it gets
abbrev keeping : ReportClient
keeping = record {
  State = List V1.StatusReport;
  report_status = λ reports report.
      (ok (record { success = true; message = "Status report received" }), report ∷ reports);
}

abbrev server : NodeAgentServer accepting keeping
server = new (new_agent accepting "node-1") (some (record { node_id = "node-1"; repo = [] }))

abbrev start_request : V1.StartInstanceRequest
start_request = record {
  instance_id = "a";
  module_bytes = 0 ∷ 97 ∷ 115 ∷ 109 ∷ 1 ∷ [];
  capabilities = [];
  restart_policy =
      some (record { policy_type = pos 1; max_retries = none; backoff_seconds = none });
}

abbrev started : NodeAgentServer accepting keeping
started = (start_instance generated (pos 100) 7 server start_request).1

start_and_stop_outcomes_example :
    IsStarted generated
      (pos 100)
      7
      server
      (start_instance_request_of_v1 generated start_request)
      (start_instance generated (pos 100) 7 server start_request)
    × IsStopped generated
        (pos 100)
        7
        server
        (record { instance_id = "a" })
        (stop_instance generated (pos 100) 7 server (record { instance_id = "a" }))
start_and_stop_outcomes_example =
    start_and_stop_outcomes generated (pos 100) 7 server start_request
      (record { instance_id = "a" })

abbrev control_plane : ControlPlaneServer
unfolding HashMap.insert HashMap.empty
control_plane = record {
  control_plane = record (ControlPlane.new "control") {
    instances = HashMap.insert HashMap.empty "a" (new_metadata "a" 1 "node-1" "abc");
  };
  routing = record {
    repo = upsert_node new_repository (record {
      node_id = "node-1";
      node_address = "http://node-1:50052";
      capabilities = [];
      max_instances = 10;
      active_instances = 0;
      last_heartbeat = none;
      available = true;
    });
    etcd_metadata_repo = none;
  };
}

node_is_known : HashMap.contains_key control_plane.routing.repo.nodes "node-1" ≡ true
unfolding control_plane upsert_node HashMap.get HashMap.insert HashMap.empty
node_is_known = refl

abbrev unix_to_utc : ℤ → Option DateTime
unix_to_utc (pos n) = some n
unix_to_utc _ = none

handle_report_status-heartbeat_example :
    let report =
      report_of "node-1" (pos 100) (heartbeat_updates accepting generated started.agent) in
    let answer = handle_report_status generated unix_to_utc control_plane report in
    (is_ok answer.0 ≡ true)
    × ((i : String)
        → HashMap.get answer.1.control_plane.instances i
          ≡ Option.map
              (as_reported generated generated-IsGenerated accepting started.agent i)
              (HashMap.get control_plane.control_plane.instances i))
handle_report_status-heartbeat_example =
    handle_report_status-heartbeat generated generated-IsGenerated accepting started.agent
      unix_to_utc (pos 100) 100 "node-1" control_plane refl node_is_known
