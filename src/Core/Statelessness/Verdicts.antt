-- ===== src/Core/Statelessness/Verdicts.antt =====
-- What the statelessness checks accept.
use wasmatrix.Prelude.{
  ◌≡◌, ◌≢◌, ◌<◌, refl, ◌↔◌, String, true, false, List, [], ◌∷◌, All, all, contains, is_empty, arith,
  ◌==◌, eq_iff, ok, some, is_ok, ok_of_is_ok, sym, ap, ◌∙◌, Bool-cases, inl, inr, ◌⊎◌,
}
use wasmatrix.Core.Types.{CapabilityAssignment, InstanceMetadata}
use wasmatrix.Core.Statelessness.{
  StateAudit, allowed_fields, check_fields, verify_minimal_storage, verify_capability_assignments,
  verify_restart_state_cleared,
}

is_ok-check_fields : (l : List String) → is_ok (check_fields l) ≡ all l (contains allowed_fields)
unfolding check_fields all
is_ok-check_fields [] = refl
is_ok-check_fields (f ∷ l) = elim (Bool-cases (contains allowed_fields f)) [
  | inl e ↦ rw (e, check_fields) (is_ok-check_fields l)
  | inr e ↦ rw (e, check_fields)
]

-- one of the five fields of the instance metadata
abbrev pub IsMetadataField : String → Type 0
IsMetadataField field =
    (field ≡ "instance_id")
    ⊎ (field ≡ "node_id")
    ⊎ (field ≡ "module_hash")
    ⊎ (field ≡ "created_at")
    ⊎ (field ≡ "status")

IsMetadataField-of_allowed :
    (field : String) → contains allowed_fields field ≡ true → IsMetadataField field
unfolding contains
IsMetadataField-of_allowed field h = ground (
  arith,
  h,
  eq_iff "instance_id" field,
  eq_iff "node_id" field,
  eq_iff "module_hash" field,
  eq_iff "created_at" field,
  eq_iff "status" field,
)

allowed_of_metadata :
    (field : String) → IsMetadataField field → contains allowed_fields field ≡ true
unfolding contains
allowed_of_metadata field (inl e) = rw e refl
allowed_of_metadata field (inr (inl e)) = rw e refl
allowed_of_metadata field (inr (inr (inl e))) = rw e refl
allowed_of_metadata field (inr (inr (inr (inl e)))) = rw e refl
allowed_of_metadata field (inr (inr (inr (inr e)))) = rw e refl

metadata_of_all : (l : List String) → all l (contains allowed_fields) ≡ true → All IsMetadataField l
unfolding all
metadata_of_all [] h = tt
metadata_of_all (f ∷ l) h =
    (IsMetadataField-of_allowed f (ground arith), metadata_of_all l (ground arith))

all_of_metadata : (l : List String) → All IsMetadataField l → all l (contains allowed_fields) ≡ true
unfolding all
all_of_metadata [] h = refl
all_of_metadata (f ∷ l) (h, hs) = rw (allowed_of_metadata f h) (all_of_metadata l hs)

-- An audit passes exactly if each stored field is one of the five fields of the instance metadata.
verify_minimal_storage_iff :
    (audit : StateAudit)
    → (verify_minimal_storage audit ≡ ok tt) ↔ All IsMetadataField audit.stored_fields
unfolding verify_minimal_storage
verify_minimal_storage_iff audit = (
  λ h.
      metadata_of_all audit.stored_fields
        (sym (is_ok-check_fields audit.stored_fields) ∙ ap is_ok h),
  λ h.
      ok_of_is_ok (check_fields audit.stored_fields)
        (is_ok-check_fields audit.stored_fields ∙ all_of_metadata audit.stored_fields h),
)

-- an assignment with no empty part
abbrev pub IsFilled : CapabilityAssignment → Type 0
IsFilled a =
    ((a.capability_id == "") ≡ false)
    × ((a.instance_id == "") ≡ false)
    × (is_empty a.permissions ≡ false)

IsFilled-of_ok :
    (l : List CapabilityAssignment) → verify_capability_assignments l ≡ ok tt → All IsFilled l
unfolding verify_capability_assignments
IsFilled-of_ok [] h = tt
IsFilled-of_ok (a ∷ l) h =
    ((ground arith, ground arith, ground arith), IsFilled-of_ok l (ground arith))

ok_of_filled :
    (l : List CapabilityAssignment) → All IsFilled l → verify_capability_assignments l ≡ ok tt
unfolding verify_capability_assignments
ok_of_filled [] h = refl
ok_of_filled (a ∷ l) h = ground (arith, h.0, ok_of_filled l h.1)

-- A list of assignments passes exactly if each has a capability, an instance and a permission.
verify_capability_assignments_iff :
    (l : List CapabilityAssignment) → (verify_capability_assignments l ≡ ok tt) ↔ All IsFilled l
verify_capability_assignments_iff l = (IsFilled-of_ok l, ok_of_filled l)

-- A restart passes exactly if the instance has a new identifier and a later creation time.
pub verify_restart_state_cleared_iff :
    (id : String) (old new : InstanceMetadata)
    → (verify_restart_state_cleared id (some old) new ≡ ok tt)
      ↔ ((old.instance_id ≢ new.instance_id) × (old.created_at < new.created_at))
unfolding verify_restart_state_cleared
verify_restart_state_cleared_iff id old new = (
  λ h. (λ e. ground (arith, eq_iff old.instance_id new.instance_id), ground arith),
  λ h. ground (arith, eq_iff old.instance_id new.instance_id, h.1),
)

-- An audit passes exactly if each stored field is one of instance_id, node_id, module_hash, created_at
-- and status; a list of assignments exactly if each has a capability, an instance and a permission; a restart
-- exactly if the instance has a new identifier and a later creation time.
pub verdicts_iff :
    (audit : StateAudit) (l : List CapabilityAssignment) (id : String) (old new : InstanceMetadata)
    → ((verify_minimal_storage audit ≡ ok tt) ↔ All IsMetadataField audit.stored_fields)
      × ((verify_capability_assignments l ≡ ok tt) ↔ All IsFilled l)
      × ((verify_restart_state_cleared id (some old) new ≡ ok tt)
          ↔ ((old.instance_id ≢ new.instance_id) × (old.created_at < new.created_at)))
verdicts_iff audit l id old new = (
  verify_minimal_storage_iff audit,
  verify_capability_assignments_iff l,
  verify_restart_state_cleared_iff id old new,
)
