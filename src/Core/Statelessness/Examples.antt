-- ===== src/Core/Statelessness/Examples.antt =====
-- The statelessness theorems at concrete inputs.
use wasmatrix.Prelude.{◌≡◌, ◌≢◌, ◌<◌, ◌↔◌, [], ◌∷◌, ok, some, All}
use wasmatrix.Core.Types.{CapabilityAssignment, InstanceMetadata, kv, starting}
use wasmatrix.Core.Statelessness.{
  StateAudit, verify_minimal_storage, verify_capability_assignments, verify_restart_state_cleared,
}
use wasmatrix.Core.Statelessness.Verdicts.{IsFilled, IsMetadataField, verdicts_iff}

abbrev audit : StateAudit
audit = record {
  instance_id = "a";
  stored_fields = "status" ∷ "heap" ∷ [];
  excluded_fields = [];
  timestamp = 7;
}

abbrev grants : CapabilityAssignment
grants = record {
  instance_id = "a";
  capability_id = "kv-1";
  provider_type = kv;
  permissions = "kv:read" ∷ [];
}

abbrev old : InstanceMetadata
old = record {
  instance_id = "a";
  node_id = "n";
  module_hash = "h";
  created_at = 1;
  status = starting;
}

abbrev new : InstanceMetadata
new = record old { instance_id = "b"; created_at = 2 }

verdicts_iff_example :
    ((verify_minimal_storage audit ≡ ok tt) ↔ All IsMetadataField audit.stored_fields)
    × ((verify_capability_assignments (grants ∷ []) ≡ ok tt) ↔ All IsFilled (grants ∷ []))
    × ((verify_restart_state_cleared "a" (some old) new ≡ ok tt)
        ↔ ((old.instance_id ≢ new.instance_id) × (old.created_at < new.created_at)))
verdicts_iff_example = verdicts_iff audit (grants ∷ []) "a" old new
