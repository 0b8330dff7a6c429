-- ===== src/Instances/Examples.antt =====
-- The instance service at concrete inputs, and the theorems there.
use wasmatrix.Prelude.{ℕ, ◌≡◌, refl, String, List, [], ◌∷◌, ok, err, arith}
use wasmatrix.HashMap
use wasmatrix.HashMap.{HashMap}
use wasmatrix.Core.Wasm.{lacks_magic}
use wasmatrix.Core.Types.{
  StartInstanceRequest, StopInstanceRequest, QueryInstanceRequest, InstanceMetadata, stopped,
  running, default_policy,
}
use wasmatrix.Shared.{validation_error, instance_not_found}
use wasmatrix.ControlPlane
use wasmatrix.ControlPlane.{ControlPlane}
use wasmatrix.Instances.Memory.{
  in_memory, in_memory-IsLawful, create, get, update_status as set, exists,
}
use wasmatrix.Instances.Service.{
  InstanceService, validate_wasm_module, start_instance, stop_instance, query_instance,
  update_status,
}
use wasmatrix.Instances.Account.{
  start, stop, query, update, started, done, status_of, serve_run, promised_run,
  serve_run-promised_run,
}
use wasmatrix.Instances.Agreement.{
  beside, starts, stops, queries, control_plane_run, controller_run,
  controller_run-control_plane_run,
}

abbrev md5 : List ℕ → String
md5 bytes = "hash"

abbrev request : StartInstanceRequest
request = record {
  module_bytes = 0 ∷ 97 ∷ 115 ∷ 109 ∷ 1 ∷ [];
  capabilities = [];
  restart_policy = default_policy;
}

abbrev stop_a : StopInstanceRequest
stop_a = record { instance_id = "a" }

abbrev query_a : QueryInstanceRequest
query_a = record { instance_id = "a" }

abbrev empty_service : InstanceService in_memory
empty_service = record { repo = HashMap.empty; node_id = "node-1" }

serve_run_test :
    (serve_run md5 empty_service
      (start "a" 5 request ∷ stop stop_a ∷ update "b" running ∷ query query_a ∷ [])).0
    ≡ ok (started "a")
      ∷ ok done
      ∷ err (instance_not_found "b")
      ∷ ok (
          status_of
            (record { instance_id = "a"; status = stopped; node_id = "node-1"; created_at = 5 }))
      ∷ []
unfolding start_instance stop_instance query_instance update_status validate_wasm_module exists get
    lacks_magic HashMap.get create HashMap.insert HashMap.empty set HashMap.modify
serve_run_test = refl

empty_module_test : validate_wasm_module [] ≡ err (validation_error "Module bytes cannot be empty")
unfolding validate_wasm_module
empty_module_test = refl

serve_run-promised_run_example :
    let rs = start "a" 5 request ∷ stop stop_a ∷ query query_a ∷ [] in
    let nothing = λ (id : String). HashMap.get {V = InstanceMetadata} HashMap.empty id in
    ((serve_run md5 empty_service rs).0 ≡ (promised_run md5 "node-1" nothing rs).0)
    × ((id : String)
        → (promised_run md5 "node-1" nothing rs).1 id
          ≡ HashMap.get (serve_run md5 empty_service rs).1.repo id)
serve_run-promised_run_example =
    serve_run-promised_run in_memory-IsLawful md5
      (start "a" 5 request ∷ stop stop_a ∷ query query_a ∷ []) empty_service
      (λ id. HashMap.get HashMap.empty id) (λ id. refl)

controller_run-control_plane_run_example :
    let cs = starts "a" 5 request ∷ stops 6 stop_a ∷ queries 7 query_a ∷ [] in
    let cp = ControlPlane.new "node-1" in
    ((controller_run md5 (beside cp) cs).0 ≡ (control_plane_run md5 cp cs).0)
    × ((controller_run md5 (beside cp) cs).1 ≡ beside (control_plane_run md5 cp cs).1)
controller_run-control_plane_run_example =
    controller_run-control_plane_run md5
      (starts "a" 5 request ∷ stops 6 stop_a ∷ queries 7 query_a ∷ []) (ControlPlane.new "node-1")
      (ground arith, (tt, (tt, tt)))
