-- ===== src/Agent/Node/Operations.antt =====
-- What a restart of the node agent changes.
use wasmatrix.Prelude.{
  value_of, String, Bool, true, false, none, some, List, [], ◌∷◌, ◌++◌, ◌≡◌, refl, arith, inl, inr,
  Result-cases, ◌==◌, Result, ok, err, is_ok, if◌then◌else◌,
}
use mathlib.Core.List.{append_assoc}
use wasmatrix.HashMap
use wasmatrix.HashMap.{get-insert, get-remove}
use wasmatrix.Core.Types.{DateTime, CoreError, new_event, ExecutionEvent}
use wasmatrix.Core.Events.{
  record_start, record_stop, record_restart, events-record_start, events-record_stop,
  events-record_restart,
}
use wasmatrix.Agent.Node.{
  Engine, InstanceHandle, NodeAgent, launch, start_instance_local, stop_instance_local,
  restart_instance,
}

-- the result without its value
abbrev pub outcome_of : {A E : Type 0} → Result A E → Result (Unit {0}) E
outcome_of (ok a) = ok tt
outcome_of (err e) = err e

module _ (engine : Engine) (agent : NodeAgent engine) (now : DateTime) (i : String) where
  abbrev pub relaunch : InstanceHandle engine → Result (InstanceHandle engine) CoreError
  relaunch handle =
      launch engine now i handle.module_bytes handle.capabilities handle.restart_policy

  abbrev pub restarted : NodeAgent engine
  restarted = (restart_instance engine now agent i).1

  abbrev pub restart_events : Bool → List ExecutionEvent
  restart_events true =
      new_event now "instance_stopped" i
      ∷ new_event now "instance_started" i
      ∷ new_event now "instance_restarted" i
      ∷ []
  restart_events false = new_event now "instance_stopped" i ∷ []

  abbrev pub halted : NodeAgent engine
  halted = record agent {
    instances = HashMap.remove agent.instances i;
    crashed_instances = HashMap.remove (HashMap.remove agent.crashed_instances i) i;
    event_recorder = record_stop agent.event_recorder now i;
  }

  abbrev pub relaunched :
      Result (InstanceHandle engine) CoreError → Result (Unit {0}) CoreError × NodeAgent engine
  relaunched (err e) = (err e, halted)
  relaunched (ok handle) = (
    ok tt,
    record halted {
      instances = HashMap.insert halted.instances i handle;
      event_recorder = record_restart (record_start halted.event_recorder now i) now i;
    },
  )

  relaunched-exact :
      (launched : Result (InstanceHandle engine) CoreError)
      → ((relaunched launched).0 ≡ outcome_of launched)
        × ((j : String)
            → HashMap.get (relaunched launched).1.instances j
              ≡ (if i == j then value_of launched else HashMap.get agent.instances j))
        × ((j : String)
            → HashMap.get (relaunched launched).1.crashed_instances j
              ≡ (if i == j then none else HashMap.get agent.crashed_instances j))
        × ((relaunched launched).1.crash_history ≡ agent.crash_history)
        × ((relaunched launched).1.event_recorder.events
            ≡ agent.event_recorder.events ++ restart_events (is_ok launched))
  relaunched-exact (ok h) = (
    refl,
    λ j. ground (arith, get-insert halted.instances i j h, get-remove agent.instances i j),
    λ j. ground (
      arith,
      get-remove agent.crashed_instances i j,
      get-remove (HashMap.remove agent.crashed_instances i) i j,
    ),
    refl,
    ground (
      arith,
      events-record_stop agent.event_recorder now i,
      events-record_start halted.event_recorder now i,
      events-record_restart (record_start halted.event_recorder now i) now i,
      append_assoc agent.event_recorder.events (new_event now "instance_stopped" i ∷ [])
          (new_event now "instance_started" i ∷ []),
      append_assoc agent.event_recorder.events
          (new_event now "instance_stopped" i ∷ new_event now "instance_started" i ∷ [])
          (new_event now "instance_restarted" i ∷ []),
    ),
  )
  relaunched-exact (err e) = (
    refl,
    λ j. get-remove agent.instances i j,
    λ j. ground (
      arith,
      get-remove agent.crashed_instances i j,
      get-remove (HashMap.remove agent.crashed_instances i) i j,
    ),
    refl,
    events-record_stop agent.event_recorder now i,
  )

  pub restart_instance-relaunched :
      (handle : InstanceHandle engine)
      → HashMap.get agent.instances i ≡ some handle
      → restart_instance engine now agent i ≡ relaunched (relaunch handle)
  unfolding restart_instance start_instance_local stop_instance_local
  restart_instance-relaunched handle known = elim (Result-cases (relaunch handle)) [
    | inl (h, e) ↦ ground (arith, known, e)
    | inr (h, e) ↦ ground (arith, known, e)
  ]

  -- A restart of a running instance launches its own module, capabilities and policy again. It
  -- succeeds exactly if the launch does; the new handle replaces the old one, and after a failed
  -- launch the instance is gone. Its crash mark is cleared, the crash history and all other
  -- instances and marks stay, and the events tell of the stop and, after a success, of the start
  -- and the restart.
  pub restart_instance-exact :
      (handle : InstanceHandle engine)
      → HashMap.get agent.instances i ≡ some handle
      → ((restart_instance engine now agent i).0 ≡ outcome_of (relaunch handle))
        × ((j : String)
            → HashMap.get restarted.instances j
              ≡ (if i == j then value_of (relaunch handle) else HashMap.get agent.instances j))
        × ((j : String)
            → HashMap.get restarted.crashed_instances j
              ≡ (if i == j then none else HashMap.get agent.crashed_instances j))
        × (restarted.crash_history ≡ agent.crash_history)
        × (restarted.event_recorder.events
            ≡ agent.event_recorder.events ++ restart_events (is_ok (relaunch handle)))
  restart_instance-exact handle known =
      let same = restart_instance-relaunched handle known in
      let (result, kept, marks, history, events) = relaunched-exact (relaunch handle) in
      (
        rw (same, result),
        λ j. ground (arith, same, kept j),
        λ j. ground (arith, same, marks j),
        ground (arith, same, history),
        ground (arith, same, events),
      )
