-- ===== src/Core/Statelessness.antt =====
-- `StateAudit` and `StatelessnessPolicy` of crates/wasmatrix-core/src/statelessness.rs.
pub mod Verdicts
mod Examples
use wasmatrix.Prelude.{
  String, Bool, true, false, not, Option, none, some, List, [], ◌∷◌, contains, is_empty, leb, ◌==◌,
  format, Result, ok, err, ◌>>=◌, ◌>>◌, fail_if, if◌then◌else◌,
}
use wasmatrix.Core.Types.{
  DateTime, CoreError, invalid_capability_assignment, serialization_error, CapabilityAssignment,
  InstanceMetadata, InstanceStatus, starting, running, stopped, crashed,
}

pub record StateAudit : Type 0 where
  pub instance_id : String
  pub stored_fields : List String
  pub excluded_fields : List String
  pub timestamp : DateTime

abbrev pub new_audit : DateTime → String → StateAudit
new_audit now instance_id = record {
  instance_id = instance_id;
  stored_fields = [];
  excluded_fields = [];
  timestamp = now;
}

abbrev pub allowed_fields : List String
allowed_fields = "instance_id" ∷ "node_id" ∷ "module_hash" ∷ "created_at" ∷ "status" ∷ []

-- the loop over `self.stored_fields`
unfoldable pub check_fields : List String → Result (Unit {0}) CoreError
check_fields [] = ok tt
check_fields (field ∷ rest) =
    fail_if (not (contains allowed_fields field)) (
      invalid_capability_assignment
        (format ("State violation: field '" ∷ field ∷ "' should not be persisted" ∷ [])))
    >> check_fields rest

unfoldable pub verify_minimal_storage : StateAudit → Result (Unit {0}) CoreError
unfolding check_fields
verify_minimal_storage audit = check_fields audit.stored_fields

-- the vector `allowed_statuses` and its `contains`
abbrev pub is_allowed_status : InstanceStatus → Bool
is_allowed_status starting = true
is_allowed_status running = true
is_allowed_status stopped = true
is_allowed_status crashed = true

unfoldable pub verify_instance_metadata : InstanceMetadata → Result (Unit {0}) CoreError
verify_instance_metadata metadata =
    fail_if (not (is_allowed_status metadata.status))
      (invalid_capability_assignment "Invalid instance status in metadata")

unfoldable pub verify_capability_assignments :
    List CapabilityAssignment → Result (Unit {0}) CoreError
verify_capability_assignments [] = ok tt
verify_capability_assignments (a ∷ rest) = do
  fail_if (a.capability_id == "")
      (invalid_capability_assignment "Empty capability_id in assignment")
  fail_if (a.instance_id == "") (invalid_capability_assignment "Empty instance_id in assignment")
  fail_if (is_empty a.permissions) (invalid_capability_assignment "Empty permissions in assignment")
  verify_capability_assignments rest

unfoldable pub verify_restart_state_cleared :
    String → Option InstanceMetadata → InstanceMetadata → Result (Unit {0}) CoreError
verify_restart_state_cleared instance_id none new = ok tt
verify_restart_state_cleared instance_id (some old) new = do
  fail_if (old.instance_id == new.instance_id) (
      invalid_capability_assignment (
        format
          ("State violation: instance " ∷ instance_id ∷ " retains same ID after restart" ∷ [])))
  fail_if (leb new.created_at old.created_at) (
      invalid_capability_assignment (
        format (
          "State violation: instance " ∷ instance_id ∷ " creation time not updated after restart"
          ∷ [])))

-- `StateExternalizer::externalize_via_kv`: `to_string` is serde_json's, `set` the KV provider's
unfoldable pub externalize_via_kv :
    {T S : Type 0}
    → (T → Result String String)
    → (S → String → String → Result (Unit {0}) CoreError × S)
    → String
    → T
    → S
    → Result (Unit {0}) CoreError × S
externalize_via_kv to_string set key value provider = elim (to_string value) [
  | err e ↦ (err (serialization_error e), provider)
  | ok json ↦ set provider key json
]
