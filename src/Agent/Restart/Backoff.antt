-- ===== src/Agent/Restart/Backoff.antt =====
-- Bounds and growth of the backoff delay.
use native.Mathlib.Nat.{pow-le-pow_right, mul-le-mul_left}
use wasmatrix.Prelude.{ℕ, ◌-◌, ◌*◌, ◌%◌, ◌^◌, ◌≤◌, ◌<◌, ◌≡◌, min, arith, ap}
use wasmatrix.Agent.Restart.{CrashInfo, u64_mod, calculate_backoff}

-- The delay is never above five minutes, whatever the base and the count.
pub calculate_backoff-le : (info : CrashInfo) (base : ℕ) → calculate_backoff info base ≤ 300
unfolding calculate_backoff
calculate_backoff-le info base = omega arith

abbrev pub factor : ℕ → ℕ
factor count = 2 ^ min (count - 1) 8

factor-le : (count : ℕ) → factor count ≤ 256
factor-le count =
    pow-le-pow_right {n = 2} (omega arith) {i = min (count - 1) 8} {j = 8} (omega arith)

exact_product : (base f : ℕ) → base * f < u64_mod → (base * f) % u64_mod ≡ base * f
exact_product base f small = omega arith

-- A base whose largest product fits 64 bits gives the delay that the comment in the code states:
-- the base times two to the number of earlier crashes, eight at most, and five minutes at most.
pub calculate_backoff-exact :
    (info : CrashInfo) (base : ℕ)
    → base * 256 < u64_mod
    → calculate_backoff info base ≡ min (base * factor info.crash_count) 300
unfolding calculate_backoff
calculate_backoff-exact info base small =
    let bound = mul-le-mul_left base (factor-le info.crash_count) in
    ap (λ d. min d 300) (exact_product base (factor info.crash_count) (omega arith))
