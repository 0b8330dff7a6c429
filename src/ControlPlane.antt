-- ===== src/ControlPlane.antt =====
-- `ControlPlane` of crates/wasmatrix-control-plane/src/lib.rs. A method that changes the state returns
-- its result beside the state after the call; `now` is the clock's reading, `uuid` the fresh
-- identifier, and `md5` the hash in hexadecimal of the crate `md5`.
pub mod Calls
pub mod Invariant
pub mod Recovery
pub mod Atomicity
mod Examples
use wasmatrix.Prelude.{
  ℕ, suc, String, Bool, true, false, not, Option, none, some, List, [], ◌∷◌, is_empty, retain,
  unwrap_or, ◌==◌, format, Result, ok, err, if◌then◌else◌,
}
use wasmatrix.HashMap
use wasmatrix.HashMap.{HashMap}
use wasmatrix.Core.Wasm.{lacks_magic}
use wasmatrix.Core.Types.{
  DateTime, CoreError, invalid_instance_id, CapabilityAssignment, InstanceMetadata, new_metadata,
  InstanceStatus, starting, running, stopped, crashed, ErrorResponse, new_error, ExecutionEvent,
  StartInstanceRequest, StopInstanceRequest, QueryInstanceRequest, InstanceStatusResponse,
}
use wasmatrix.Core.Events.{
  ExecutionEventRecorder, new_recorder, record_crash, record_restart, get_events_for_instance,
}

pub record ControlPlane : Type 0 where
  pub instances : HashMap InstanceMetadata
  pub crashed_instances : HashMap DateTime
  pub capabilities : HashMap (List CapabilityAssignment)
  pub event_recorder : ExecutionEventRecorder
  pub node_id : String

abbrev pub new : String → ControlPlane
new node_id = record {
  instances = HashMap.empty;
  crashed_instances = HashMap.empty;
  capabilities = HashMap.empty;
  event_recorder = new_recorder;
  node_id = node_id;
}

abbrev pub invalid_request : DateTime → String → ErrorResponse
unfolding new_error
invalid_request now message = new_error now "INVALID_REQUEST" message

abbrev pub not_found : DateTime → String → String → ErrorResponse
unfolding new_error
not_found now instance_id rest =
    new_error now "INSTANCE_NOT_FOUND" (format ("Instance " ∷ instance_id ∷ rest ∷ []))

abbrev pub set_status : InstanceStatus → InstanceMetadata → InstanceMetadata
set_status status metadata = record metadata { status = status }

unfoldable pub start_instance :
    (List ℕ → String)
    → String
    → DateTime
    → ControlPlane
    → StartInstanceRequest
    → Result String ErrorResponse × ControlPlane
unfolding new_error
start_instance md5 uuid now cp request =
    if is_empty request.module_bytes
    then (err (invalid_request now "Module bytes cannot be empty"), cp)
    else if lacks_magic request.module_bytes
    then (err (invalid_request now "Invalid Wasm module format"), cp)
    else (let metadata = new_metadata uuid now cp.node_id (md5 request.module_bytes) in
        let instance_id = metadata.instance_id in
        let stored = record cp { instances = HashMap.insert cp.instances instance_id metadata } in
        (
          ok instance_id,
          if is_empty request.capabilities then stored else record stored {
            capabilities = HashMap.insert stored.capabilities instance_id request.capabilities;
          },
        ))

unfoldable pub stop_instance :
    DateTime → ControlPlane → StopInstanceRequest → Result (Unit {0}) ErrorResponse × ControlPlane
unfolding new_error
stop_instance now cp request =
    if request.instance_id == ""
    then (err (invalid_request now "Instance ID cannot be empty"), cp)
    else if HashMap.contains_key cp.instances request.instance_id
    then (
      ok tt,
      record cp {
        instances = HashMap.modify cp.instances request.instance_id (set_status stopped);
      },
    )
    else (err (not_found now request.instance_id " not found"), cp)

unfoldable pub query_instance :
    DateTime → ControlPlane → QueryInstanceRequest → Result InstanceStatusResponse ErrorResponse
unfolding new_error
query_instance now cp request =
    if request.instance_id == ""
    then err (invalid_request now "Instance ID cannot be empty")
    else elim (HashMap.get cp.instances request.instance_id) [
      | none ↦ err (not_found now request.instance_id " not found")
      | some metadata ↦ ok (record {
        instance_id = metadata.instance_id;
        status = metadata.status;
        node_id = metadata.node_id;
        created_at = metadata.created_at;
      })
    ]

unfoldable pub assign_capability :
    DateTime → ControlPlane → CapabilityAssignment → Result (Unit {0}) ErrorResponse × ControlPlane
unfolding new_error
assign_capability now cp assignment =
    if not (HashMap.contains_key cp.instances assignment.instance_id)
    then (err (not_found now assignment.instance_id " not found"), cp)
    else if assignment.capability_id == ""
    then (err (invalid_request now "Capability ID cannot be empty"), cp)
    else if is_empty assignment.permissions
    then (err (invalid_request now "At least one permission must be specified"), cp)
    else (
      ok tt,
      record cp {
        capabilities = HashMap.push_at cp.capabilities assignment.instance_id assignment;
      },
    )

abbrev pub keep_others : String → List CapabilityAssignment → List CapabilityAssignment
keep_others capability_id = retain (λ a. not (a.capability_id == capability_id))

unfoldable pub revoke_capability :
    DateTime → ControlPlane → String → String → Result (Unit {0}) ErrorResponse × ControlPlane
unfolding new_error
revoke_capability now cp instance_id capability_id =
    if instance_id == ""
    then (err (invalid_request now "Instance ID cannot be empty"), cp)
    else if capability_id == ""
    then (err (invalid_request now "Capability ID cannot be empty"), cp)
    else elim (HashMap.get cp.capabilities instance_id) [
      | none ↦ (err (not_found now instance_id " has no capability assignments"), cp)
      | some assignments ↦
          let retained = HashMap.modify cp.capabilities instance_id (keep_others capability_id) in
          (
            ok tt,
            record cp {
              capabilities =
                  if is_empty (keep_others capability_id assignments)
                  then HashMap.remove retained instance_id
                  else retained;
            },
          )
    ]

unfoldable pub list_instances : ControlPlane → List InstanceMetadata
list_instances cp = HashMap.values cp.instances

unfoldable pub get_capabilities : ControlPlane → String → Option (List CapabilityAssignment)
get_capabilities cp instance_id = HashMap.get cp.capabilities instance_id

unfoldable pub get_instance : ControlPlane → String → Option InstanceMetadata
get_instance cp instance_id = HashMap.get cp.instances instance_id

unfoldable pub restore_instance_state :
    ControlPlane → InstanceMetadata → List CapabilityAssignment → ControlPlane
restore_instance_state cp metadata capabilities = record cp {
  instances = HashMap.insert cp.instances metadata.instance_id metadata;
  capabilities =
      if is_empty capabilities
      then HashMap.remove cp.capabilities metadata.instance_id
      else HashMap.insert cp.capabilities metadata.instance_id capabilities;
}

unfoldable pub update_instance_status :
    ControlPlane → String → InstanceStatus → Result (Unit {0}) CoreError × ControlPlane
update_instance_status cp instance_id status =
    if HashMap.contains_key cp.instances instance_id
    then (
      ok tt,
      record cp { instances = HashMap.modify cp.instances instance_id (set_status status) },
    )
    else (err (invalid_instance_id instance_id), cp)

unfoldable pub record_instance_crash :
    DateTime → ControlPlane → String → String → Result (Unit {0}) ErrorResponse × ControlPlane
unfolding new_error
record_instance_crash now cp instance_id error =
    if not (HashMap.contains_key cp.instances instance_id)
    then (err (not_found now instance_id " not found"), cp)
    else (
      ok tt,
      record cp {
        event_recorder = record_crash cp.event_recorder now instance_id error;
        crashed_instances = HashMap.insert cp.crashed_instances instance_id now;
        instances = HashMap.modify cp.instances instance_id (set_status crashed);
      },
    )

unfoldable pub handle_crash_recovery :
    DateTime → ControlPlane → String → Result (Unit {0}) ErrorResponse × ControlPlane
unfolding new_error
handle_crash_recovery now cp instance_id =
    if not (HashMap.contains_key cp.instances instance_id)
    then (err (not_found now instance_id " not found for recovery"), cp)
    else (
      ok tt,
      record cp {
        crashed_instances = HashMap.remove cp.crashed_instances instance_id;
        event_recorder = record_restart cp.event_recorder now instance_id;
        instances = HashMap.modify cp.instances instance_id (set_status starting);
      },
    )

-- `CrashInfo`, which stands beside the control plane
pub record CrashInfo : Type 0 where
  pub crash_count : ℕ
  pub last_crash_time : Option DateTime

unfoldable pub get_crash_info : DateTime → ControlPlane → String → Option CrashInfo
get_crash_info now cp instance_id =
    if HashMap.contains_key cp.crashed_instances instance_id
    then some (record { crash_count = 1; last_crash_time = some now })
    else none

unfoldable pub is_instance_crashed : ControlPlane → String → Bool
is_instance_crashed cp instance_id = HashMap.contains_key cp.crashed_instances instance_id

unfoldable pub get_execution_events_for_instance : ControlPlane → String → List ExecutionEvent
unfolding get_events_for_instance
get_execution_events_for_instance cp instance_id =
    get_events_for_instance cp.event_recorder instance_id
