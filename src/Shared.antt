-- ===== src/Shared.antt =====
-- The errors of crates/wasmatrix-control-plane/src/shared/error.rs, with the text and the response
-- that each has.
use wasmatrix.Prelude.{String, Result, ◌<>◌}
use wasmatrix.Core.Types.{DateTime, ErrorResponse, new_error}

pub data ControlPlaneError : Type 0 where
  invalid_request instance_not_found capability_not_found permission_denied storage_error
        validation_error wasm_runtime_error resource_exhausted timeout crash_detected
        restart_policy_violation :
      String → ControlPlaneError

abbrev pub ControlPlaneResult : Type 0 → Type 0
ControlPlaneResult A = Result A ControlPlaneError

-- the derived `Display`
unfoldable pub display : ControlPlaneError → String
display (invalid_request s) = "Invalid request: " <> s
display (instance_not_found s) = "Instance not found: " <> s
display (capability_not_found s) = "Capability not found: " <> s
display (permission_denied s) = "Permission denied: " <> s
display (storage_error s) = "Storage error: " <> s
display (validation_error s) = "Validation error: " <> s
display (wasm_runtime_error s) = "Wasm runtime error: " <> s
display (resource_exhausted s) = "Resource exhausted: " <> s
display (timeout s) = "Timeout: " <> s
display (crash_detected s) = "Instance crash detected: " <> s
display (restart_policy_violation s) = "Restart policy violation: " <> s

-- `ErrorResponse::from`
unfoldable pub error_response : DateTime → ControlPlaneError → ErrorResponse
unfolding new_error
error_response now (invalid_request s) = new_error now "INVALID_REQUEST" s
error_response now (instance_not_found s) = new_error now "INSTANCE_NOT_FOUND" s
error_response now (capability_not_found s) = new_error now "CAPABILITY_NOT_FOUND" s
error_response now (permission_denied s) = new_error now "PERMISSION_DENIED" s
error_response now (storage_error s) = new_error now "STORAGE_ERROR" s
error_response now (validation_error s) = new_error now "VALIDATION_ERROR" s
error_response now (wasm_runtime_error s) = new_error now "WASM_RUNTIME_ERROR" s
error_response now (resource_exhausted s) = new_error now "RESOURCE_EXHAUSTED" s
error_response now (timeout s) = new_error now "TIMEOUT" s
error_response now (crash_detected s) = new_error now "CRASH_DETECTED" s
error_response now (restart_policy_violation s) = new_error now "RESTART_POLICY_VIOLATION" s
