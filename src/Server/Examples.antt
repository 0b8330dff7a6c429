-- ===== src/Server/Examples.antt =====
-- A report of a crash to a server with one node and one instance.
use wasmatrix.Prelude.{ℤ, pos, negsuc, true, [], ◌∷◌, Option, none, some, ◌≡◌, refl, is_ok}
use wasmatrix.HashMap
use wasmatrix.Core.Types.{DateTime, new_metadata}
use wasmatrix.ControlPlane
use wasmatrix.ControlPlane.{ControlPlane}
use wasmatrix.Proto.V1
use wasmatrix.Proto.Conversion.Codec.{generated}
use wasmatrix.NodeRouting.Repository.{Repository, new_repository, upsert_node}
use wasmatrix.Server.{ControlPlaneServer, handle_report_status}
use wasmatrix.Server.Reports.{are_readable, handle_report_status-exact}

abbrev unix_to_utc : ℤ → Option DateTime
unix_to_utc (pos k) = some k
unix_to_utc (negsuc k) = none

abbrev one_node : Repository
one_node = upsert_node new_repository (record {
  node_id = "node-1";
  node_address = "http://127.0.0.1:50052";
  capabilities = [];
  max_instances = 0;
  active_instances = 0;
  last_heartbeat = none;
  available = true;
})

abbrev server : ControlPlaneServer
server = record {
  control_plane = record (ControlPlane.new "cp") {
    instances = HashMap.insert HashMap.empty "a" (new_metadata "a" 1 "node-1" "abc");
  };
  routing = record { repo = one_node; etcd_metadata_repo = none };
}

abbrev report : V1.StatusReport
report = record {
  node_id = "node-1";
  instance_updates =
      record { instance_id = "a"; status = pos 4; error_message = some "trap" }
      ∷ record { instance_id = "a"; status = pos 9999; error_message = none }
      ∷ [];
  timestamp = pos 1700000000;
}

node_is_registered : HashMap.contains_key server.routing.repo.nodes "node-1" ≡ true
unfolding upsert_node HashMap.get HashMap.insert HashMap.empty
node_is_registered = refl

handle_report_status-exact_example :
    is_ok (handle_report_status generated unix_to_utc server report).0
    ≡ are_readable generated report.instance_updates
handle_report_status-exact_example =
    (handle_report_status-exact generated unix_to_utc server report 1700000000 refl
      node_is_registered).0
