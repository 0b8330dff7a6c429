-- ===== src/Agent/Restart/Decision.antt =====
-- How often the restart policy evaluator lets an instance restart.
use wasmatrix.Prelude.{
  ℕ, ◌+◌, ◌*◌, ◌<◌, ◌≡◌, arith, List, [], ◌∷◌, length, Option, none, some, unwrap_or, leb,
  if◌then◌else◌, min,
}
use wasmatrix.Core.Types.{DateTime, RestartPolicy, on_failure}
use wasmatrix.Agent.Restart.{
  CrashInfo, new_crash_info, count_crash, u32_mod, u64_mod, should_restart, restart_by,
}
use wasmatrix.Agent.Restart.Backoff.{factor, calculate_backoff-exact}

-- the crash record after crashes at the given times
abbrev pub crash_all : List DateTime → CrashInfo → CrashInfo
crash_all [] info = info
crash_all (t ∷ ts) info = crash_all ts (count_crash t info)

crash_all-count :
    (ts : List DateTime) (info : CrashInfo)
    → info.crash_count + length ts < u32_mod
    → (crash_all ts info).crash_count ≡ info.crash_count + length ts
unfolding count_crash
crash_all-count [] info small = omega arith
crash_all-count (t ∷ ts) info small =
    let ih = crash_all-count ts (count_crash t info) (omega arith) in omega arith

abbrev pub on_failure_with : Option ℕ → Option ℕ → RestartPolicy
on_failure_with max_retries backoff = record {
  policy_type = on_failure;
  max_retries = max_retries;
  backoff_seconds = backoff;
}

pub should_restart-by_count :
    (info : CrashInfo) (max_retries backoff : Option ℕ)
    → unwrap_or backoff 5 * 256 < u64_mod
    → should_restart (on_failure_with max_retries backoff) info ≡ (
        if leb info.crash_count (unwrap_or max_retries info.crash_count)
        then some (min (unwrap_or backoff 5 * factor info.crash_count) 300)
        else none)
unfolding should_restart restart_by
should_restart-by_count info none backoff small =
    ground (arith, calculate_backoff-exact info (unwrap_or backoff 5) small)
should_restart-by_count info (some m) backoff small =
    ground (arith, calculate_backoff-exact info (unwrap_or backoff 5) small)

-- The decision after crashes at given times, fewer than 2^32, under an on-failure policy whose base
-- times 256 is below 2^64: with a limit it restarts exactly while the crashes are at most the limit, without
-- one always, each time after the exponential delay, with a base of five seconds if none is set.
pub should_restart-after_crashes :
    (ts : List DateTime) (max_retries backoff : Option ℕ)
    → length ts < u32_mod
    → unwrap_or backoff 5 * 256 < u64_mod
    → should_restart (on_failure_with max_retries backoff) (crash_all ts new_crash_info) ≡ (
        if leb (length ts) (unwrap_or max_retries (length ts))
        then some (min (unwrap_or backoff 5 * factor (length ts)) 300)
        else none)
should_restart-after_crashes ts max_retries backoff small base_small =
    let info = crash_all ts new_crash_info in
    let count = crash_all-count ts new_crash_info (omega arith) in
    ground (arith, should_restart-by_count info max_retries backoff base_small, count)
