-- ===== src/Agent/Node/Runs.antt =====
-- Sequences of calls of the node agent: what holds after all of them.
use wasmatrix.Prelude.{
  ℕ, String, Bool, false, Option, none, some, List, [], ◌∷◌, ◌+◌, ◌<◌, ◌≤◌, ◌%◌, ◌*◌, ◌≡◌, refl,
  unwrap_or, arith, ◌==◌, eq_iff, Result, ok, err, if◌then◌else◌, length, leb, inl, inr, min,
  Option-cases,
}
use wasmatrix.HashMap
use wasmatrix.HashMap.{HashMap, get-insert, get-remove, get-empty}
use wasmatrix.Core.Types.{DateTime, CapabilityAssignment, RestartPolicy, CoreError}
use wasmatrix.Agent.Restart.{CrashInfo, new_crash_info, count_crash, u32_mod, u64_mod}
use wasmatrix.Agent.Restart.Decision.{on_failure_with, should_restart-by_count}
use wasmatrix.Agent.Restart.Backoff.{factor}
use wasmatrix.Agent.Node.{
  Engine, InstanceHandle, NodeAgent, new_agent, start_instance_local, stop_instance_local,
  on_instance_crash, restart_instance, get_crash_count,
}
use wasmatrix.Agent.Node.Operations.{restart_instance-relaunched, relaunched, relaunch}

pub data Call : Type 0 where
  starts : String → List ℕ → List CapabilityAssignment → RestartPolicy → Call
  stops : String → Call
  crashes : String → String → Call
  restarts : String → Call

abbrev pub is_crash_of : String → Call → Bool
is_crash_of i (crashes j error) = j == i
is_crash_of i (starts j bytes caps policy) = false
is_crash_of i (stops j) = false
is_crash_of i (restarts j) = false

-- how often the calls report a crash of the instance
abbrev pub crashes_of : String → List (DateTime × Call) → ℕ
crashes_of i [] = 0
crashes_of i ((now, call) ∷ calls) =
    let rest = crashes_of i calls in if is_crash_of i call then 1 + rest else rest

module _ (engine : Engine) where
  unfoldable pub step : NodeAgent engine → DateTime × Call → NodeAgent engine
  step agent (now, starts i bytes caps policy) =
      (start_instance_local engine now agent i bytes caps policy).1
  step agent (now, stops i) = (stop_instance_local engine now agent i).1
  step agent (now, crashes i error) = (on_instance_crash engine now agent i error).1
  step agent (now, restarts i) = (restart_instance engine now agent i).1

  unfoldable pub run : NodeAgent engine → List (DateTime × Call) → NodeAgent engine
  run agent [] = agent
  run agent (c ∷ cs) = run (step agent c) cs

  on_instance_crash-history :
      (now : DateTime) (agent : NodeAgent engine) (j e i : String)
      → get_crash_count engine (on_instance_crash engine now agent j e).1 i ≡ (
          if j == i
          then (get_crash_count engine agent i + 1) % u32_mod
          else get_crash_count engine agent i)
  unfolding on_instance_crash get_crash_count count_crash
  on_instance_crash-history now agent j e i = ground (
    arith,
    get-insert agent.crash_history j i
        (count_crash now (unwrap_or (HashMap.get agent.crash_history j) new_crash_info)),
    eq_iff j i,
  )

  start_instance_local-history :
      (now : DateTime) (agent : NodeAgent engine) (j : String) (b : List ℕ)
      (c : List CapabilityAssignment) (p : RestartPolicy)
      → (start_instance_local engine now agent j b c p).1.crash_history ≡ agent.crash_history
  unfolding start_instance_local
  start_instance_local-history now agent j b c p = ground arith

  stop_instance_local-history :
      (now : DateTime) (agent : NodeAgent engine) (j : String)
      → (stop_instance_local engine now agent j).1.crash_history ≡ agent.crash_history
  unfolding stop_instance_local
  stop_instance_local-history now agent j = ground arith

  relaunched-history :
      (now : DateTime) (agent : NodeAgent engine) (j : String)
      (l : Result (InstanceHandle engine) CoreError)
      → (relaunched engine agent now j l).1.crash_history ≡ agent.crash_history
  relaunched-history now agent j (ok h) = refl
  relaunched-history now agent j (err e) = refl

  restart_instance-history :
      (now : DateTime) (agent : NodeAgent engine) (j : String)
      → (restart_instance engine now agent j).1.crash_history ≡ agent.crash_history
  restart_instance-history now agent j = elim (Option-cases (HashMap.get agent.instances j)) [
    | inl e ↦ unfold restart_instance in ground (arith, e)
    | inr (h, e) ↦ ground (
      arith,
      restart_instance-relaunched engine agent now j h e,
      relaunched-history now agent j (relaunch engine agent now j h),
    )
  ]

  step-count :
      (agent : NodeAgent engine) (now : DateTime) (call : Call) (i : String)
      → get_crash_count engine (step agent (now, call)) i ≡ (
          if is_crash_of i call
          then (get_crash_count engine agent i + 1) % u32_mod
          else get_crash_count engine agent i)
  unfolding step get_crash_count
  step-count agent now (crashes j e) i = on_instance_crash-history now agent j e i
  step-count agent now (starts j b c p) i =
      ground (arith, start_instance_local-history now agent j b c p)
  step-count agent now (stops j) i = ground (arith, stop_instance_local-history now agent j)
  step-count agent now (restarts j) i = ground (arith, restart_instance-history now agent j)

  count-run :
      (agent : NodeAgent engine) (calls : List (DateTime × Call)) (i : String)
      → get_crash_count engine agent i + length calls < u32_mod
      → get_crash_count engine (run agent calls) i
        ≡ get_crash_count engine agent i + crashes_of i calls
  unfolding run
  count-run agent [] i small = omega arith
  count-run agent ((now, call) ∷ calls) i small =
      let one = step-count agent now call i in
      let bound : get_crash_count engine (step agent (now, call)) i + length calls < u32_mod =
        ground (arith, one) in
      let ih = count-run (step agent (now, call)) calls i bound in ground (arith, one)

  crashes_of-le : (i : String) (calls : List (DateTime × Call)) → crashes_of i calls ≤ length calls
  crashes_of-le i [] = omega arith
  crashes_of-le i ((now, call) ∷ calls) = let ih = crashes_of-le i calls in ground arith

  counted_next :
      (node_id : String) (calls : List (DateTime × Call)) (i : String) (now : DateTime)
      → length calls + 1 < u32_mod
      → (count_crash now (
          unwrap_or
            (HashMap.get (run (new_agent engine node_id) calls).crash_history i)
            new_crash_info)).crash_count
        ≡ 1 + crashes_of i calls
  unfolding count_crash get_crash_count
  counted_next node_id calls i now few =
      let none_yet = get-empty {V = CrashInfo} i in
      let count = count-run (new_agent engine node_id) calls i (ground (arith, none_yet)) in
      let bound = crashes_of-le i calls in ground (arith, none_yet, count)

  -- After any calls on a new agent, fewer than 2^32 - 1, a crash of a running instance with an
  -- on-failure policy, whose base times 256 is below 2^64, is answered by the number of crashes the calls
  -- reported for it, this one counted too, whatever starts, stops and restarts came between: a
  -- restart after the exponential delay while the number is within the limit, if there is one, and
  -- no restart above it.
  pub on_instance_crash-run :
      (node_id : String) (calls : List (DateTime × Call)) (i error : String) (now : DateTime)
      (handle : InstanceHandle engine) (max_retries backoff : Option ℕ)
      → length calls + 1 < u32_mod
      → unwrap_or backoff 5 * 256 < u64_mod
      → HashMap.get (run (new_agent engine node_id) calls).instances i ≡ some handle
      → handle.restart_policy ≡ on_failure_with max_retries backoff
      → (on_instance_crash engine now (run (new_agent engine node_id) calls) i error).0 ≡ (
          if leb (1 + crashes_of i calls) (unwrap_or max_retries (1 + crashes_of i calls))
          then some (min (unwrap_or backoff 5 * factor (1 + crashes_of i calls)) 300)
          else none)
  unfolding on_instance_crash
  on_instance_crash-run node_id calls i error now handle max_retries backoff few small running
        policy =
      let agent = run (new_agent engine node_id) calls in
      let info = count_crash now (unwrap_or (HashMap.get agent.crash_history i) new_crash_info) in
      let counted : info.crash_count ≡ 1 + crashes_of i calls =
        counted_next node_id calls i now few in
      let decision = should_restart-by_count info max_retries backoff small in
      ground (arith, running, policy, counted, decision)
