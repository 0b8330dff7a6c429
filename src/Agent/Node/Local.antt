-- ===== src/Agent/Node/Local.antt =====
-- What a start and a stop of the node agent change.
use wasmatrix.Prelude.{
  ℕ, String, Bool, true, false, none, some, List, [], ◌∷◌, ◌++◌, ◌≡◌, refl, arith, inl, inr,
  Result-cases, Bool-cases, ◌==◌, ◌&&◌, Result, ok, err, is_ok, if◌then◌else◌,
}
use wasmatrix.HashMap
use wasmatrix.HashMap.{get-insert, get-remove}
use wasmatrix.Core.Types.{
  DateTime, CoreError, CapabilityAssignment, RestartPolicy, running, stopped, crashed, new_event,
}
use wasmatrix.Core.Events.{events-record_start, events-record_stop}
use wasmatrix.Agent.Node.{
  Engine, InstanceHandle, NodeAgent, launch, start_instance_local, stop_instance_local,
  get_instance_status,
}

module _ (engine : Engine) (agent : NodeAgent engine) (now : DateTime) (i : String) where
  -- After a start the status of the instance is crashed if it was marked before and running
  -- otherwise; a start that fails, and the status of every other instance, change nothing.
  pub start_instance_local-status :
      (bytes : List ℕ) (caps : List CapabilityAssignment) (policy : RestartPolicy) (j : String)
      → get_instance_status engine (start_instance_local engine now agent i bytes caps policy).1 j
        ≡ (if (i == j) && is_ok (launch engine now i bytes caps policy)
            then if HashMap.contains_key agent.crashed_instances j then crashed else running
            else get_instance_status engine agent j)
  unfolding start_instance_local get_instance_status
  start_instance_local-status bytes caps policy j =
      elim (Result-cases (launch engine now i bytes caps policy)) [
        | inl (handle, e) ↦ ground (arith, e, get-insert agent.instances i j handle)
        | inr (e, f) ↦ ground (arith, f)
      ]

  -- A stop takes a running instance with its crash mark away and fails otherwise, in which case
  -- nothing changes; every other instance keeps its status.
  stop_instance_local-status :
      (j : String)
      → (is_ok (stop_instance_local engine now agent i).0 ≡ HashMap.contains_key agent.instances i)
        × (get_instance_status engine (stop_instance_local engine now agent i).1 j ≡ (
            if (i == j) && HashMap.contains_key agent.instances i
            then stopped
            else get_instance_status engine agent j))
  unfolding stop_instance_local get_instance_status
  stop_instance_local-status j = (
    ground arith,
    ground (arith, get-remove agent.instances i j, get-remove agent.crashed_instances i j),
  )

  -- what a start does, by the outcome of its launch
  abbrev pub IsStartedLocal :
      Result (InstanceHandle engine) CoreError
      → Result (Unit {0}) CoreError × NodeAgent engine
      → Type 0
  IsStartedLocal (err e) outcome = (outcome.0 ≡ err e) × (outcome.1 ≡ agent)
  IsStartedLocal (ok handle) outcome =
      (outcome.0 ≡ ok tt)
      × ((j : String)
          → HashMap.get outcome.1.instances j
            ≡ (if i == j then some handle else HashMap.get agent.instances j))
      × (outcome.1.crashed_instances ≡ agent.crashed_instances)
      × (outcome.1.crash_history ≡ agent.crash_history)
      × (outcome.1.event_recorder.events
          ≡ agent.event_recorder.events ++ (new_event now "instance_started" i ∷ []))

  -- what a stop does, by whether the instance runs
  abbrev pub IsStoppedLocal : Bool → Result (Unit {0}) CoreError × NodeAgent engine → Type 0
  IsStoppedLocal false outcome = (is_ok outcome.0 ≡ false) × (outcome.1 ≡ agent)
  IsStoppedLocal true outcome =
      (outcome.0 ≡ ok tt)
      × ((j : String)
          → HashMap.get outcome.1.instances j
            ≡ (if i == j then none else HashMap.get agent.instances j))
      × ((j : String)
          → HashMap.get outcome.1.crashed_instances j
            ≡ (if i == j then none else HashMap.get agent.crashed_instances j))
      × (outcome.1.crash_history ≡ agent.crash_history)
      × (outcome.1.event_recorder.events
          ≡ agent.event_recorder.events ++ (new_event now "instance_stopped" i ∷ []))

  start_instance_local-IsStartedLocal :
      (bytes : List ℕ) (caps : List CapabilityAssignment) (policy : RestartPolicy)
      → IsStartedLocal
          (launch engine now i bytes caps policy)
          (start_instance_local engine now agent i bytes caps policy)
  unfolding start_instance_local
  start_instance_local-IsStartedLocal bytes caps policy =
      elim (Result-cases (launch engine now i bytes caps policy)) [
        | inr (e, p) ↦ rw (start_instance_local, p) (refl, refl)
        | inl (handle, p) ↦
            rw (start_instance_local, p)
              (
                refl,
                λ j. get-insert agent.instances i j handle,
                refl,
                refl,
                events-record_start agent.event_recorder now i,
              )
      ]

  stop_instance_local-IsStoppedLocal :
      IsStoppedLocal
        (HashMap.contains_key agent.instances i)
        (stop_instance_local engine now agent i)
  unfolding stop_instance_local
  stop_instance_local-IsStoppedLocal = elim (Bool-cases (HashMap.contains_key agent.instances i)) [
    | inr p ↦ rw (stop_instance_local, p) (refl, refl)
    | inl p ↦
        rw (stop_instance_local, p)
          (
            refl,
            get-remove agent.instances i,
            get-remove agent.crashed_instances i,
            refl,
            events-record_stop agent.event_recorder now i,
          )
  ]

  -- A start succeeds exactly if the launch does; it then stores the new handle and records one event,
  -- and keeps the crash marks and the crash history. A stop succeeds exactly if the instance is
  -- stored; it then takes the handle and the crash mark away, records one event and keeps the crash
  -- history. A start or a stop that fails changes nothing. After a start the status of the instance
  -- is crashed if it was marked before and running otherwise, after a stop it is stopped, and every
  -- other instance keeps its status.
  pub local_operations-exact :
      (bytes : List ℕ) (caps : List CapabilityAssignment) (policy : RestartPolicy) (j : String)
      → IsStartedLocal
          (launch engine now i bytes caps policy)
          (start_instance_local engine now agent i bytes caps policy)
        × IsStoppedLocal
            (HashMap.contains_key agent.instances i)
            (stop_instance_local engine now agent i)
        × (get_instance_status engine
              (start_instance_local engine now agent i bytes caps policy).1
              j
            ≡ (if (i == j) && is_ok (launch engine now i bytes caps policy)
                then if HashMap.contains_key agent.crashed_instances j then crashed else running
                else get_instance_status engine agent j))
        × (get_instance_status engine (stop_instance_local engine now agent i).1 j ≡ (
            if (i == j) && HashMap.contains_key agent.instances i
            then stopped
            else get_instance_status engine agent j))
  local_operations-exact bytes caps policy j = (
    start_instance_local-IsStartedLocal bytes caps policy,
    stop_instance_local-IsStoppedLocal,
    start_instance_local-status bytes caps policy j,
    (stop_instance_local-status j).1,
  )
