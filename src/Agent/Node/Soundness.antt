-- ===== src/Agent/Node/Soundness.antt =====
-- What the node agent keeps about its instances, after every sequence of calls.
use wasmatrix.Prelude.{
  ℕ, String, true, false, Option, none, some, List, [], ◌∷◌, ◌≡◌, unwrap_or, arith, eq_iff, ok, inl,
  inr, Result-cases, Option-cases, Bool-cases,
}
use wasmatrix.HashMap
use wasmatrix.HashMap.{HashMap, get-insert, get-remove, get-empty}
use wasmatrix.Core.Types.{DateTime, CapabilityAssignment, RestartPolicy}
use wasmatrix.Core.Events.{ExecutionEventRecorder, record_start, record_restart}
use wasmatrix.Core.Wasm.{lacks_magic}
use wasmatrix.Agent.Restart.{new_crash_info, count_crash}
use wasmatrix.Agent.Node.{
  Engine, InstanceHandle, NodeAgent, new_agent, launch, start_instance_local, stop_instance_local,
  on_instance_crash, restart_instance,
}
use wasmatrix.Agent.Node.Runs.{Call, starts, stops, crashes, restarts, step, run}
use wasmatrix.Agent.Node.Operations.{restart_instance-relaunched, relaunched, relaunch, halted}

module _ (engine : Engine) where
  -- a stored handle stands under its own identifier and holds a module with the Wasm magic bytes
  abbrev pub IsLaunched : String → Option (InstanceHandle engine) → Type 0
  IsLaunched id none = Unit
  IsLaunched id (some h) = (h.instance_id ≡ id) × (lacks_magic h.module_bytes ≡ false)

  pub record IsSound (agent : NodeAgent engine) : Type 0 where
    pub launched : (id : String) → IsLaunched id (HashMap.get agent.instances id)
    pub counted :
        (id : String)
        → HashMap.contains_key agent.crashed_instances id ≡ true
        → HashMap.contains_key agent.crash_history id ≡ true

  launch-IsLaunched :
      (now : DateTime) (i : String) (b : List ℕ) (c : List CapabilityAssignment) (p : RestartPolicy)
      (h : InstanceHandle engine)
      → launch engine now i b c p ≡ ok h
      → (h.instance_id ≡ i) × (lacks_magic h.module_bytes ≡ false)
  unfolding launch
  launch-IsLaunched now i b c p h e = elim (Bool-cases (lacks_magic b)) [
    | inl bad ↦ ground (arith, bad)
    | inr good ↦ ground (arith, good)
  ]

  install-IsSound :
      (agent : NodeAgent engine) (i : String) (h : InstanceHandle engine)
      (events : ExecutionEventRecorder)
      → IsSound agent
      → (h.instance_id ≡ i) × (lacks_magic h.module_bytes ≡ false)
      → IsSound
          (record agent { event_recorder = events; instances = HashMap.insert agent.instances i h })
  install-IsSound agent i h events v named = record {
    launched =
        λ id. ground (arith, v.launched id, get-insert agent.instances i id h, eq_iff i id, named);
    counted = v.counted;
  }

  start_instance_local-IsSound :
      (now : DateTime) (agent : NodeAgent engine) (i : String) (b : List ℕ)
      (c : List CapabilityAssignment) (p : RestartPolicy)
      → IsSound agent
      → IsSound (start_instance_local engine now agent i b c p).1
  unfolding start_instance_local
  start_instance_local-IsSound now agent i b c p v =
      elim (Result-cases (launch engine now i b c p)) [
        | inl (h, e) ↦
            rw (start_instance_local, e)
              (install-IsSound agent i h (record_start agent.event_recorder now i) v
                (launch-IsLaunched now i b c p h e))
        | inr (h, e) ↦ rw (start_instance_local, e) v
      ]

  stop_instance_local-IsSound :
      (now : DateTime) (agent : NodeAgent engine) (i : String)
      → IsSound agent
      → IsSound (stop_instance_local engine now agent i).1
  stop_instance_local-IsSound now agent i v =
      unfold stop_instance_local in
      record {
        launched = λ id. ground (arith, v.launched id, get-remove agent.instances i id);
        counted = λ id h. ground (arith, v.counted id, get-remove agent.crashed_instances i id);
      }

  on_instance_crash-IsSound :
      (now : DateTime) (agent : NodeAgent engine) (i error : String)
      → IsSound agent
      → IsSound (on_instance_crash engine now agent i error).1
  on_instance_crash-IsSound now agent i error v =
      unfold on_instance_crash in
      record {
        launched = λ id. ground (arith, v.launched id);
        counted = λ id h. ground (
          arith,
          v.counted id,
          get-insert agent.crashed_instances i id now,
          get-insert agent.crash_history i id
              (count_crash now (unwrap_or (HashMap.get agent.crash_history i) new_crash_info)),
        );
      }

  halted-IsSound :
      (now : DateTime) (agent : NodeAgent engine) (i : String)
      → IsSound agent
      → IsSound (halted engine agent now i)
  halted-IsSound now agent i v = record {
    launched = λ id. ground (arith, v.launched id, get-remove agent.instances i id);
    counted = λ id h. ground (
      arith,
      v.counted id,
      get-remove agent.crashed_instances i id,
      get-remove (HashMap.remove agent.crashed_instances i) i id,
    );
  }

  relaunched-IsSound :
      (now : DateTime) (agent : NodeAgent engine) (i : String) (h : InstanceHandle engine)
      → IsSound agent
      → IsSound (relaunched engine agent now i (relaunch engine agent now i h)).1
  relaunched-IsSound now agent i h v =
      let gone = halted-IsSound now agent i v in
      elim (Result-cases (relaunch engine agent now i h)) [
        | inl (fresh, e) ↦ rw e (
            install-IsSound (halted engine agent now i) i fresh
              (record_restart (record_start (halted engine agent now i).event_recorder now i) now i)
              gone (launch-IsLaunched now i h.module_bytes h.capabilities h.restart_policy fresh e))
        | inr (failure, e) ↦ rw e gone
      ]

  restart_instance-IsSound :
      (now : DateTime) (agent : NodeAgent engine) (i : String)
      → IsSound agent
      → IsSound (restart_instance engine now agent i).1
  unfolding restart_instance
  restart_instance-IsSound now agent i v = elim (Option-cases (HashMap.get agent.instances i)) [
    | inl e ↦ rw (restart_instance, e) v
    | inr (h, e) ↦
        rw (restart_instance-relaunched engine agent now i h e) (relaunched-IsSound now agent i h v)
  ]

  new_agent-IsSound : (node_id : String) → IsSound (new_agent engine node_id)
  new_agent-IsSound node_id = record {
    launched = λ id. ground (arith, get-empty {V = InstanceHandle engine} id);
    counted = λ id h. ground (arith, get-empty {V = DateTime} id);
  }

  step-IsSound :
      (agent : NodeAgent engine) (now : DateTime) (call : Call)
      → IsSound agent
      → IsSound (step engine agent (now, call))
  unfolding step
  step-IsSound agent now (starts i b c p) v = start_instance_local-IsSound now agent i b c p v
  step-IsSound agent now (stops i) v = stop_instance_local-IsSound now agent i v
  step-IsSound agent now (crashes i e) v = on_instance_crash-IsSound now agent i e v
  step-IsSound agent now (restarts i) v = restart_instance-IsSound now agent i v

  run_from-IsSound :
      (agent : NodeAgent engine) (calls : List (DateTime × Call))
      → IsSound agent
      → IsSound (run engine agent calls)
  unfolding run
  run_from-IsSound agent [] v = v
  run_from-IsSound agent ((now, call) ∷ calls) v =
      run_from-IsSound (step engine agent (now, call)) calls (step-IsSound agent now call v)

  -- After any calls on a new agent every handle stands under its own identifier and holds a module
  -- with the Wasm magic bytes, and every instance with a crash mark has a crash history.
  pub run-IsSound :
      (node_id : String) (calls : List (DateTime × Call))
      → IsSound (run engine (new_agent engine node_id) calls)
  run-IsSound node_id calls =
      run_from-IsSound (new_agent engine node_id) calls (new_agent-IsSound node_id)
