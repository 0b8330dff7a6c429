-- ===== src/Agent/Node.antt =====
-- `NodeAgent` of crates/wasmatrix-agent/src/lib.rs. wasmtime is the parameter `engine`. A method that
-- changes the state returns its result beside the state after the call; `now` is the clock's reading
-- during the call.
pub mod Operations
pub mod Local
pub mod Runs
pub mod Soundness
use wasmatrix.Prelude.{
  ℕ, String, Bool, Option, none, some, List, [], ◌∷◌, unwrap_or, is_some, format, Result, ok, err,
  map_err, if◌then◌else◌,
}
use mathlib.Core.Option
use wasmatrix.HashMap
use wasmatrix.HashMap.{HashMap}
use wasmatrix.Core.Wasm.{lacks_magic}
use wasmatrix.Core.Types.{
  DateTime, CoreError, invalid_instance_id, CapabilityAssignment, RestartPolicy, InstanceStatus,
  running, stopped, crashed, ExecutionEvent,
}
use wasmatrix.Core.Events.{
  ExecutionEventRecorder, new_recorder, record_crash, record_restart, record_start, record_stop,
  get_events, get_events_for_instance,
}
use wasmatrix.Agent.Restart.{CrashInfo, new_crash_info, count_crash, should_restart}

-- what the agent uses of wasmtime: compiling a module, a fresh store, instantiating in a store; the
-- outcome may differ from one time to another
pub record Engine : Type 1 where
  pub Module : Type 0
  pub Store : Type 0
  pub Instance : Type 0
  pub compile : DateTime → List ℕ → Result Module String
  pub new_store : Store
  pub instantiate : DateTime → Store → Module → Result (Instance × Store) String

pub record InstanceHandle (engine : Engine) : Type 0 where
  pub instance_id : String
  pub store : engine.Store
  pub instance_of : engine.Instance
  pub module_bytes : List ℕ
  pub capabilities : List CapabilityAssignment
  pub restart_policy : RestartPolicy

pub record NodeAgent (engine : Engine) : Type 0 where
  pub instances : HashMap (InstanceHandle engine)
  pub crash_history : HashMap CrashInfo
  pub event_recorder : ExecutionEventRecorder
  pub crashed_instances : HashMap DateTime
  pub node_id : String

module _ (engine : Engine) where
  abbrev pub new_agent : String → NodeAgent engine
  new_agent node_id = record {
    instances = HashMap.empty;
    crash_history = HashMap.empty;
    event_recorder = new_recorder;
    crashed_instances = HashMap.empty;
    node_id = node_id;
  }

  -- the checks, the compilation and the instantiation of `start_instance_local`
  unfoldable pub launch :
      DateTime
      → String
      → List ℕ
      → List CapabilityAssignment
      → RestartPolicy
      → Result (InstanceHandle engine) CoreError
  launch now instance_id module_bytes capabilities restart_policy =
      if lacks_magic module_bytes
      then err (invalid_instance_id "Invalid Wasm module format")
      else elim (engine.compile now module_bytes) [
        | err e ↦ err (invalid_instance_id (format ("Failed to compile Wasm module: " ∷ e ∷ [])))
        | ok wasm ↦ elim (engine.instantiate now engine.new_store wasm) [
          | err e ↦
              err (invalid_instance_id (format ("Failed to instantiate Wasm module: " ∷ e ∷ [])))
          | ok (started, store) ↦ ok (record {
            instance_id = instance_id;
            store = store;
            instance_of = started;
            module_bytes = module_bytes;
            capabilities = capabilities;
            restart_policy = restart_policy;
          })
        ]
      ]

  unfoldable pub start_instance_local :
      DateTime
      → NodeAgent engine
      → String
      → List ℕ
      → List CapabilityAssignment
      → RestartPolicy
      → Result (Unit {0}) CoreError × NodeAgent engine
  start_instance_local now agent instance_id module_bytes capabilities restart_policy =
      elim (launch now instance_id module_bytes capabilities restart_policy) [
        | err e ↦ (err e, agent)
        | ok handle ↦ (
          ok tt,
          record agent {
            event_recorder = record_start agent.event_recorder now instance_id;
            instances = HashMap.insert agent.instances instance_id handle;
          },
        )
      ]

  unfoldable pub stop_instance_local :
      DateTime → NodeAgent engine → String → Result (Unit {0}) CoreError × NodeAgent engine
  stop_instance_local now agent instance_id =
      if HashMap.contains_key agent.instances instance_id
      then (
        ok tt,
        record agent {
          instances = HashMap.remove agent.instances instance_id;
          crashed_instances = HashMap.remove agent.crashed_instances instance_id;
          event_recorder = record_stop agent.event_recorder now instance_id;
        },
      )
      else (
        err (invalid_instance_id (format ("Instance " ∷ instance_id ∷ " not found" ∷ []))),
        agent,
      )

  unfoldable pub on_instance_crash :
      DateTime → NodeAgent engine → String → String → Option ℕ × NodeAgent engine
  on_instance_crash now agent instance_id error =
      let crash_info =
        count_crash now (unwrap_or (HashMap.get agent.crash_history instance_id) new_crash_info) in
      let after = record agent {
        event_recorder = record_crash agent.event_recorder now instance_id error;
        crashed_instances = HashMap.insert agent.crashed_instances instance_id now;
        crash_history = HashMap.insert agent.crash_history instance_id crash_info;
      } in
      elim (HashMap.get agent.instances instance_id) [
        | none ↦ (none, after)
        | some handle ↦ (should_restart handle.restart_policy crash_info, after)
      ]

  unfoldable pub get_instance_status : NodeAgent engine → String → InstanceStatus
  get_instance_status agent instance_id =
      if HashMap.contains_key agent.crashed_instances instance_id
      then crashed
      else if HashMap.contains_key agent.instances instance_id
      then running
      else stopped

  unfoldable pub get_crash_count : NodeAgent engine → String → ℕ
  get_crash_count agent instance_id =
      unwrap_or
        (Option.map (λ (info : CrashInfo). info.crash_count)
          (HashMap.get agent.crash_history instance_id))
        0

  unfoldable pub restart_instance :
      DateTime → NodeAgent engine → String → Result (Unit {0}) CoreError × NodeAgent engine
  unfolding start_instance_local stop_instance_local
  restart_instance now agent instance_id = elim (HashMap.get agent.instances instance_id) [
    | none ↦ (
      err (
          invalid_instance_id (format ("Instance " ∷ instance_id ∷ " not found for restart" ∷ []))),
      agent,
    )
    | some handle ↦
        let cleared = record agent {
          crashed_instances = HashMap.remove agent.crashed_instances instance_id;
        } in
        let (stopped_or, halted) = stop_instance_local now cleared instance_id in
        elim stopped_or [
          | err e ↦ (err e, halted)
          | ok _ ↦
              let (started_or, started) =
                start_instance_local now halted instance_id handle.module_bytes handle.capabilities
                  handle.restart_policy in
              elim started_or [
                | err e ↦ (err e, started)
                | ok _ ↦ (
                  ok tt,
                  record started {
                    event_recorder = record_restart started.event_recorder now instance_id;
                  },
                )
              ]
        ]
  ]

  unfoldable pub list_instances : NodeAgent engine → List String
  list_instances agent = HashMap.keys agent.instances

  unfoldable pub get_execution_events : NodeAgent engine → List ExecutionEvent
  get_execution_events agent = get_events agent.event_recorder

  unfoldable pub get_execution_events_for_instance : NodeAgent engine → String → List ExecutionEvent
  get_execution_events_for_instance agent instance_id =
      get_events_for_instance agent.event_recorder instance_id
