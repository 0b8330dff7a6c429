-- ===== src/Agent/Examples.antt =====
-- Runs of the node agent on an engine that accepts every module, and the tests of
-- crates/wasmatrix-agent/src/lib.rs on the restart policy.
use wasmatrix.Prelude.{
  ℕ, List, [], ◌∷◌, ◌≡◌, refl, some, none, arith, ok, ◌*◌, min, ◌==◌, ◌&&◌, is_ok, if◌then◌else◌,
}
use wasmatrix.HashMap
use wasmatrix.Core.Types.{RestartPolicy, running, stopped, crashed}
use wasmatrix.Core.Wasm.{lacks_magic}
use wasmatrix.Agent.Restart.{CrashInfo, calculate_backoff, should_restart, new_crash_info}
use wasmatrix.Agent.Restart.Backoff.{factor}
use wasmatrix.Agent.Restart.Decision.{on_failure_with, crash_all, should_restart-after_crashes}
use wasmatrix.Agent.Node.{
  Engine, InstanceHandle, NodeAgent, new_agent, launch, start_instance_local, stop_instance_local,
  on_instance_crash, restart_instance, get_instance_status,
}
use wasmatrix.Agent.Node.Operations.{restart_instance-exact, outcome_of, relaunch}
use wasmatrix.Agent.Node.Local.{local_operations-exact, IsStartedLocal, IsStoppedLocal}
use wasmatrix.Agent.Node.Runs.{Call, starts, crashes, restarts, step, run, on_instance_crash-run}
use wasmatrix.Agent.Node.Soundness.{IsSound, run-IsSound}

abbrev crashed_times : ℕ → CrashInfo
crashed_times n = record { crash_count = n; last_crash_time = some 7 }

-- the delays of `test_crash_info_backoff_calculation`
backoff_test :
    (calculate_backoff (crashed_times 1) 5 ≡ 5) × (calculate_backoff (crashed_times 10) 5 ≡ 300)
unfolding calculate_backoff
backoff_test = (refl, refl)

should_restart-after_crashes_example :
    should_restart (on_failure_with (some 3) none) (crash_all (1 ∷ 2 ∷ []) new_crash_info)
    ≡ some (min (5 * factor 2) 300)
should_restart-after_crashes_example =
    should_restart-after_crashes (1 ∷ 2 ∷ []) (some 3) none (omega arith) (omega arith)

abbrev accepting : Engine
accepting = record {
  Module = List ℕ;
  Store = ℕ;
  Instance = List ℕ;
  compile = λ now bytes. ok bytes;
  new_store = 0;
  instantiate = λ now store wasm. ok (wasm, store);
}

abbrev bytes : List ℕ
bytes = 0 ∷ 97 ∷ 115 ∷ 109 ∷ 1 ∷ 0 ∷ 0 ∷ 0 ∷ []

abbrev policy : RestartPolicy
policy = on_failure_with (some 3) (some 5)

abbrev calls : List (ℕ × Call)
calls =
    (1, starts "a" bytes [] policy)
    ∷ (2, crashes "a" "trap")
    ∷ (3, restarts "a")
    ∷ (4, crashes "b" "trap")
    ∷ []

abbrev handle : InstanceHandle accepting
handle = record {
  instance_id = "a";
  store = 0;
  instance_of = bytes;
  module_bytes = bytes;
  capabilities = [];
  restart_policy = policy;
}

abbrev agent : NodeAgent accepting
agent = run accepting (new_agent accepting "node-1") calls

agent_runs : HashMap.get agent.instances "a" ≡ some handle
unfolding run start_instance_local launch lacks_magic on_instance_crash restart_instance HashMap.get
    step HashMap.insert HashMap.empty HashMap.remove
agent_runs = refl

restart_instance-exact_example :
    (restart_instance accepting 9 agent "a").0 ≡ outcome_of (relaunch accepting agent 9 "a" handle)
restart_instance-exact_example = (restart_instance-exact accepting agent 9 "a" handle agent_runs).0

local_operations-exact_example :
    IsStartedLocal accepting agent 9 "a"
      (launch accepting 9 "a" bytes [] policy)
      (start_instance_local accepting 9 agent "a" bytes [] policy)
    × IsStoppedLocal accepting agent 9 "a"
        (HashMap.contains_key agent.instances "a")
        (stop_instance_local accepting 9 agent "a")
    × (get_instance_status accepting
          (start_instance_local accepting 9 agent "a" bytes [] policy).1
          "a"
        ≡ (if ("a" == "a") && is_ok (launch accepting 9 "a" bytes [] policy)
            then if HashMap.contains_key agent.crashed_instances "a" then crashed else running
            else get_instance_status accepting agent "a"))
    × (get_instance_status accepting (stop_instance_local accepting 9 agent "a").1 "a" ≡ (
        if ("a" == "a") && HashMap.contains_key agent.instances "a"
        then stopped
        else get_instance_status accepting agent "a"))
local_operations-exact_example = local_operations-exact accepting agent 9 "a" bytes [] policy "a"

on_instance_crash-run_example :
    (on_instance_crash accepting 9 agent "a" "trap").0 ≡ some (min (5 * factor 2) 300)
on_instance_crash-run_example =
    on_instance_crash-run accepting "node-1" calls "a" "trap" 9 handle (some 3) (some 5)
      (omega arith) (omega arith) agent_runs refl

run-IsSound_example : IsSound accepting agent
run-IsSound_example = run-IsSound accepting "node-1" calls
