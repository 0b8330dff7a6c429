-- ===== src/ControlPlane/Recovery.antt =====
-- Crashes, recovery, stopping and starting: what they change and what they leave.
use wasmatrix.Prelude.{
  ℕ, ◌≡◌, String, true, false, some, List, [], ◌∷◌, ◌++◌, is_empty, arith, ◌==◌, eq_refl, ok,
  if◌then◌else◌, all,
}
use mathlib.Core.Option
use mathlib.Core.List.{append_assoc}
use wasmatrix.HashMap
use wasmatrix.HashMap.{get-insert, get-modify, get-remove}
use wasmatrix.Core.Types.{
  DateTime, InstanceMetadata, new_metadata, starting, stopped, crashed, new_event, with_details,
  ExecutionEvent, StartInstanceRequest, StopInstanceRequest,
}
use wasmatrix.Core.Events.{record_crash, events-record_crash, events-record_restart}
use wasmatrix.Core.Wasm.{lacks_magic, is_empty_of_magic}
use wasmatrix.Core.Isolation.{verify_provider_scoping}
use wasmatrix.ControlPlane.{
  ControlPlane, set_status, start_instance, stop_instance, query_instance, get_instance,
  get_capabilities, record_instance_crash, handle_crash_recovery, is_instance_crashed,
}

-- the two events that a crash and a recovery leave
abbrev pub crash_event : DateTime → String → String → ExecutionEvent
crash_event now i error =
    with_details (new_event now "instance_crashed" i) (HashMap.insert HashMap.empty "error" error)

abbrev pub restart_event : DateTime → String → ExecutionEvent
restart_event now i = new_event now "instance_restarted" i

module _ (cp : ControlPlane) (i error : String) (now later : DateTime) where
  abbrev pub after_crash : ControlPlane
  after_crash = (record_instance_crash now cp i error).1

  abbrev pub after_recovery : ControlPlane
  after_recovery = (handle_crash_recovery later after_crash i).1

  -- A crash of a known instance marks it, sets its status and touches no other instance and no
  -- assignment.
  pub record_instance_crash-exact :
      HashMap.contains_key cp.instances i ≡ true
      → ((record_instance_crash now cp i error).0 ≡ ok tt)
        × ((j : String)
            → is_instance_crashed after_crash j
              ≡ (if i == j then true else is_instance_crashed cp j))
        × ((j : String)
            → get_instance after_crash j ≡ (
                if i == j
                then Option.map (set_status crashed) (get_instance cp j)
                else get_instance cp j))
        × (after_crash.capabilities ≡ cp.capabilities)
  unfolding record_instance_crash is_instance_crashed get_instance
  record_instance_crash-exact known = (
    ground arith,
    λ j. ground (arith, get-insert cp.crashed_instances i j now),
    λ j. ground (arith, get-modify cp.instances i j (set_status crashed)),
    ground arith,
  )

  recovery_events :
      HashMap.contains_key cp.instances i ≡ true
      → after_recovery.event_recorder.events
        ≡ cp.event_recorder.events ++ (crash_event now i error ∷ restart_event later i ∷ [])
  unfolding record_instance_crash handle_crash_recovery
  recovery_events known = ground (
    arith,
    get-modify cp.instances i i (set_status crashed),
    eq_refl i,
    events-record_crash cp.event_recorder now i error,
    events-record_restart (record_crash cp.event_recorder now i error) later i,
    append_assoc cp.event_recorder.events (crash_event now i error ∷ [])
        (restart_event later i ∷ []),
  )

  -- A crash of a known instance and its recovery clear the mark, leave every other instance and all
  -- assignments as they were, set the instance's status to starting and add the two events, in order.
  pub crash_then_recovery :
      HashMap.contains_key cp.instances i ≡ true
      → ((handle_crash_recovery later after_crash i).0 ≡ ok tt)
        × ((j : String)
            → is_instance_crashed after_recovery j
              ≡ (if i == j then false else is_instance_crashed cp j))
        × ((j : String)
            → get_instance after_recovery j ≡ (
                if i == j
                then Option.map (set_status starting) (get_instance cp j)
                else get_instance cp j))
        × (after_recovery.capabilities ≡ cp.capabilities)
        × (after_recovery.event_recorder.events
            ≡ cp.event_recorder.events ++ (crash_event now i error ∷ restart_event later i ∷ []))
  unfolding record_instance_crash handle_crash_recovery is_instance_crashed get_instance
  crash_then_recovery known = (
    ground (arith, get-modify cp.instances i i (set_status crashed), eq_refl i),
    λ j. ground (
      arith,
      get-modify cp.instances i i (set_status crashed),
      eq_refl i,
      get-insert cp.crashed_instances i j now,
      get-remove (HashMap.insert cp.crashed_instances i now) i j,
    ),
    λ j. ground (
      arith,
      get-modify cp.instances i i (set_status crashed),
      eq_refl i,
      get-modify cp.instances i j (set_status crashed),
      get-modify (HashMap.modify cp.instances i (set_status crashed)) i j (set_status starting),
    ),
    ground arith,
    recovery_events known,
  )

-- Stopping a known instance with a nonempty identifier succeeds, sets its status to stopped and
-- changes neither another instance nor a crash mark: a crashed instance stays marked as crashed.
pub stop_keeps_marks :
    (cp : ControlPlane) (now : DateTime) (request : StopInstanceRequest)
    → (request.instance_id == "") ≡ false
    → HashMap.contains_key cp.instances request.instance_id ≡ true
    → ((stop_instance now cp request).0 ≡ ok tt)
      × ((j : String)
          → get_instance (stop_instance now cp request).1 j ≡ (
              if request.instance_id == j
              then Option.map (set_status stopped) (get_instance cp j)
              else get_instance cp j))
      × ((j : String)
          → is_instance_crashed (stop_instance now cp request).1 j ≡ is_instance_crashed cp j)
unfolding get_instance stop_instance is_instance_crashed
stop_keeps_marks cp now request named known = (
  ground arith,
  λ j. ground (arith, get-modify cp.instances request.instance_id j (set_status stopped)),
  λ j. ground arith,
)

-- A start of a module with the Wasm magic bytes returns the drawn identifier. A query for it, if it is
-- not empty, answers with status starting, and every other instance is as before.
start_then_query :
    (md5 : List ℕ → String) (uuid : String) (now later : DateTime) (cp : ControlPlane)
    (request : StartInstanceRequest)
    → lacks_magic request.module_bytes ≡ false
    → (uuid == "") ≡ false
    → ((start_instance md5 uuid now cp request).0 ≡ ok uuid)
      × (query_instance later
            (start_instance md5 uuid now cp request).1
            (record { instance_id = uuid })
          ≡ ok (record {
            instance_id = uuid;
            status = starting;
            node_id = cp.node_id;
            created_at = now;
          }))
      × ((j : String)
          → (uuid == j) ≡ false
          → get_instance (start_instance md5 uuid now cp request).1 j ≡ get_instance cp j)
unfolding start_instance query_instance get_instance new_metadata
start_then_query md5 uuid now later cp request magic named = (
  ground (arith, is_empty_of_magic request.module_bytes),
  ground (
    arith,
    is_empty_of_magic request.module_bytes,
    get-insert cp.instances uuid uuid metadata,
    eq_refl uuid,
  ),
  λ j other.
      ground
        (arith, is_empty_of_magic request.module_bytes, get-insert cp.instances uuid j metadata),
)
  where
    metadata : InstanceMetadata
    metadata = new_metadata uuid now cp.node_id (md5 request.module_bytes)

-- A start of a module with the Wasm magic bytes and with some requested assignments stores these as
-- they came. If one of them names another instance than the one that is started, what is stored
-- fails the provider scoping check.
pub start_keeps_foreign_assignments :
    (md5 : List ℕ → String) (uuid : String) (now : DateTime) (cp : ControlPlane)
    (request : StartInstanceRequest)
    → lacks_magic request.module_bytes ≡ false
    → is_empty request.capabilities ≡ false
    → all request.capabilities (λ a. a.instance_id == uuid) ≡ false
    → (get_capabilities (start_instance md5 uuid now cp request).1 uuid ≡ some request.capabilities)
      × (verify_provider_scoping uuid request.capabilities ≡ ok false)
unfolding start_instance get_capabilities new_metadata verify_provider_scoping
start_keeps_foreign_assignments md5 uuid now cp request magic some_requested foreign = (
  ground (
    arith,
    is_empty_of_magic request.module_bytes,
    get-insert cp.capabilities uuid uuid request.capabilities,
    eq_refl uuid,
  ),
  ground arith,
)
