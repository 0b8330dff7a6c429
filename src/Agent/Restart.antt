-- ===== src/Agent/Restart.antt =====
-- `CrashInfo` and `RestartPolicyEvaluator` of crates/wasmatrix-agent/src/lib.rs. `u32` and `u64` wrap,
-- as in a release build; a `Duration` is its seconds.
pub mod Backoff
pub mod Decision
use wasmatrix.Prelude.{
  ℕ, ◌+◌, ◌-◌, ◌*◌, ◌%◌, ◌^◌, min, Option, none, some, unwrap_or, ltb, if◌then◌else◌,
}
use wasmatrix.Core.Types.{DateTime, RestartPolicy, RestartPolicyType, never, always, on_failure}

abbrev pub u32_mod : ℕ
u32_mod = 2 ^ 32

abbrev pub u64_mod : ℕ
u64_mod = 2 ^ 64

pub record CrashInfo : Type 0 where
  pub crash_count : ℕ
  pub last_crash_time : Option DateTime

abbrev pub new_crash_info : CrashInfo
new_crash_info = record { crash_count = 0; last_crash_time = none }

-- `CrashInfo::record_crash`
unfoldable pub count_crash : DateTime → CrashInfo → CrashInfo
count_crash now info = record {
  crash_count = (info.crash_count + 1) % u32_mod;
  last_crash_time = some now;
}

-- `saturating_sub(1)` is `-`, which stops at 0
unfoldable pub calculate_backoff : CrashInfo → ℕ → ℕ
calculate_backoff info base_seconds =
    min ((base_seconds * 2 ^ min (info.crash_count - 1) 8) % u64_mod) 300

-- the branch for the policy type, the log lines left out
unfoldable pub restart_by : RestartPolicyType → RestartPolicy → CrashInfo → Option ℕ
restart_by never policy info = none
restart_by always policy info = some 0
restart_by on_failure policy info = elim policy.max_retries [
  | some max_retries ↦
      if ltb max_retries info.crash_count
      then none
      else some (calculate_backoff info (unwrap_or policy.backoff_seconds 5))
  | none ↦ some (calculate_backoff info (unwrap_or policy.backoff_seconds 5))
]

unfoldable pub should_restart : RestartPolicy → CrashInfo → Option ℕ
unfolding restart_by
should_restart policy info = restart_by policy.policy_type policy info
