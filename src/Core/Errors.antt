-- ===== src/Core/Errors.antt =====
-- The text of `CoreError`, its derived `Display`, of crates/wasmatrix-core/src/lib.rs.
use wasmatrix.Prelude.{String, ◌<>◌}
use wasmatrix.Core.Types.{
  CoreError, invalid_instance_id, invalid_capability_assignment, serialization_error,
  wasm_runtime_error, resource_exhausted, timeout, crash_detected, restart_policy_violation,
}

unfoldable pub display : CoreError → String
display (invalid_instance_id s) = "Invalid instance ID: " <> s
display (invalid_capability_assignment s) = "Invalid capability assignment: " <> s
display (serialization_error s) = "Serialization error: " <> s
display (wasm_runtime_error s) = "Wasm runtime error: " <> s
display (resource_exhausted s) = "Resource exhaustion: " <> s
display (timeout s) = "Timeout: " <> s
display (crash_detected s) = "Crash detected: " <> s
display (restart_policy_violation s) = "Restart policy violation: " <> s
