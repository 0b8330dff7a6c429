-- ===== src/ControlPlane/Examples.antt =====
-- A run of the control plane, and the theorems at concrete inputs.
use wasmatrix.Prelude.{
  ℕ, ◌≡◌, refl, String, true, false, List, [], ◌∷◌, ◌++◌, ok, some, ◌==◌, if◌then◌else◌, all,
}
use mathlib.Core.Option
use wasmatrix.HashMap
use wasmatrix.HashMap.{HashMap}
use wasmatrix.Core.Types.{
  CapabilityAssignment, InstanceMetadata, StartInstanceRequest, kv, starting, stopped,
  default_policy,
}
use wasmatrix.Core.Wasm.{lacks_magic}
use wasmatrix.Core.Isolation.{verify_provider_scoping}
use wasmatrix.ControlPlane.{
  ControlPlane, new, set_status, start_instance, stop_instance, get_instance, get_capabilities,
  handle_crash_recovery, is_instance_crashed,
}
use wasmatrix.ControlPlane.Calls.{starts, stops, crashes, step, run}
use wasmatrix.ControlPlane.Atomicity.{failed_call_changes_nothing}
use wasmatrix.ControlPlane.Invariant.{IsConsistent, run-IsConsistent}
use wasmatrix.ControlPlane.Recovery.{
  crash_event, restart_event, after_crash, after_recovery, crash_then_recovery, stop_keeps_marks,
  start_keeps_foreign_assignments,
}

abbrev md5 : List ℕ → String
md5 bytes = "hash"

abbrev foreign : CapabilityAssignment
foreign = record {
  instance_id = "elsewhere";
  capability_id = "kv-1";
  provider_type = kv;
  permissions = "kv:read" ∷ [];
}

abbrev request : StartInstanceRequest
request = record {
  module_bytes = 0 ∷ 97 ∷ 115 ∷ 109 ∷ 1 ∷ [];
  capabilities = foreign ∷ [];
  restart_policy = default_policy;
}

abbrev metadata : InstanceMetadata
metadata = record {
  instance_id = "a";
  node_id = "node-1";
  module_hash = "hash";
  created_at = 5;
  status = starting;
}

abbrev one_instance : ControlPlane
unfolding HashMap.insert HashMap.empty
one_instance = record (new "node-1") { instances = HashMap.insert HashMap.empty "a" metadata }

known : HashMap.contains_key one_instance.instances "a" ≡ true
unfolding one_instance HashMap.get
known = refl

good_module : lacks_magic request.module_bytes ≡ false
unfolding lacks_magic
good_module = refl

foreign_requested : all request.capabilities (λ a. a.instance_id == "a") ≡ false
unfolding all
foreign_requested = refl

stop_unknown : (step md5 one_instance (stops 9 (record { instance_id = "b" }))).0 ≡ false
unfolding one_instance stop_instance HashMap.get
stop_unknown = refl

failed_call_changes_nothing_example :
    (step md5 one_instance (stops 9 (record { instance_id = "b" }))).1 ≡ one_instance
failed_call_changes_nothing_example =
    failed_call_changes_nothing md5 one_instance (stops 9 (record { instance_id = "b" }))
      stop_unknown

run-IsConsistent_example :
    IsConsistent (run md5 (new "node-1") (starts "a" 5 request ∷ crashes 6 "a" "trap" ∷ []))
run-IsConsistent_example =
    run-IsConsistent md5 "node-1" (starts "a" 5 request ∷ crashes 6 "a" "trap" ∷ [])

crash_then_recovery_example :
    ((handle_crash_recovery 7 (after_crash one_instance "a" "trap" 6 7) "a").0 ≡ ok tt)
    × ((j : String)
        → is_instance_crashed (after_recovery one_instance "a" "trap" 6 7) j
          ≡ (if "a" == j then false else is_instance_crashed one_instance j))
    × ((j : String)
        → get_instance (after_recovery one_instance "a" "trap" 6 7) j ≡ (
            if "a" == j
            then Option.map (set_status starting) (get_instance one_instance j)
            else get_instance one_instance j))
    × ((after_recovery one_instance "a" "trap" 6 7).capabilities ≡ one_instance.capabilities)
    × ((after_recovery one_instance "a" "trap" 6 7).event_recorder.events
        ≡ one_instance.event_recorder.events
          ++ (crash_event 6 "a" "trap" ∷ restart_event 7 "a" ∷ []))
crash_then_recovery_example = crash_then_recovery one_instance "a" "trap" 6 7 known

stop_keeps_marks_example :
    ((stop_instance 7 one_instance (record { instance_id = "a" })).0 ≡ ok tt)
    × ((j : String)
        → get_instance (stop_instance 7 one_instance (record { instance_id = "a" })).1 j ≡ (
            if "a" == j
            then Option.map (set_status stopped) (get_instance one_instance j)
            else get_instance one_instance j))
    × ((j : String)
        → is_instance_crashed (stop_instance 7 one_instance (record { instance_id = "a" })).1 j
          ≡ is_instance_crashed one_instance j)
stop_keeps_marks_example = stop_keeps_marks one_instance 7 (record { instance_id = "a" }) refl known

start_keeps_foreign_assignments_example :
    (get_capabilities (start_instance md5 "a" 8 (new "node-1") request).1 "a"
      ≡ some request.capabilities)
    × (verify_provider_scoping "a" request.capabilities ≡ ok false)
start_keeps_foreign_assignments_example =
    start_keeps_foreign_assignments md5 "a" 8 (new "node-1") request good_module refl
      foreign_requested
