-- ===== src/Core/Capability.antt =====
-- `CapabilityRegistry` and `PermissionEnforcer` of crates/wasmatrix-core/src/capability.rs.
-- A method that changes the registry returns its result beside the registry after the call.
pub mod Invariant
pub mod Enforcement
pub mod Revocation
pub mod Refinement
mod Examples
use wasmatrix.Prelude.{
  ℕ, ◌+◌, String, Bool, true, false, not, Option, none, some, List, [], ◌∷◌, length, is_empty, any,
  retain, contains, is_some, unwrap_or, ◌==◌, format, Result, ok, err, ◌>>=◌, ◌>>◌, ok_or, fail_if,
  ltb, if◌then◌else◌,
}
use wasmatrix.HashMap
use wasmatrix.HashMap.{HashMap}
use wasmatrix.Core.Types.{
  ProviderType, kv, http, messaging, same_type, debug, CoreError, invalid_capability_assignment,
  CapabilityAssignment, has_permission as grants,
}
use mathlib.Core.Option

pub record CapabilityRegistry : Type 0 where
  pub assignments : HashMap (List CapabilityAssignment)
  pub known_providers : HashMap ProviderType

abbrev pub new : CapabilityRegistry
new = record { assignments = HashMap.empty; known_providers = HashMap.empty }

unfoldable pub register_provider : CapabilityRegistry → String → ProviderType → CapabilityRegistry
register_provider r provider_id provider_type = record r {
  known_providers = HashMap.insert r.known_providers provider_id provider_type;
}

abbrev pub valid_permissions : ProviderType → List String
valid_permissions kv = "kv:read" ∷ "kv:write" ∷ "kv:delete" ∷ []
valid_permissions http = "http:request" ∷ []
valid_permissions messaging = "msg:publish" ∷ "msg:subscribe" ∷ []

abbrev pub invalid_permission : String → ProviderType → CoreError
invalid_permission permission provider_type = invalid_capability_assignment (
    format
      ("Invalid permission '" ∷ permission ∷ "' for provider type " ∷ debug provider_type ∷ []))

-- the loop over `assignment.permissions`
unfoldable pub check_permissions : ProviderType → List String → Result (Unit {0}) CoreError
unfolding contains
check_permissions t [] = ok tt
check_permissions t (permission ∷ rest) =
    fail_if (not (contains (valid_permissions t) permission)) (invalid_permission permission t)
    >> check_permissions t rest

unfoldable pub validate_permissions :
    CapabilityAssignment → ProviderType → Result (Unit {0}) CoreError
unfolding check_permissions
validate_permissions assignment provider_type =
    check_permissions provider_type assignment.permissions

unfoldable pub validate_assignment :
    CapabilityRegistry → CapabilityAssignment → Result (Unit {0}) CoreError
unfolding validate_permissions
validate_assignment r a = do
  provider_type ←
      ok_or (HashMap.get r.known_providers a.capability_id) (
        invalid_capability_assignment
          (format ("Provider '" ∷ a.capability_id ∷ "' not found" ∷ [])))
  fail_if (not (same_type provider_type a.provider_type)) (
      invalid_capability_assignment (
        format (
          "Provider type mismatch: expected "
          ∷ debug provider_type
          ∷ ", got "
          ∷ debug a.provider_type
          ∷ [])))
  validate_permissions a provider_type

unfoldable pub assign_capability :
    CapabilityRegistry → CapabilityAssignment → Result (Unit {0}) CoreError × CapabilityRegistry
unfolding validate_assignment
assign_capability r a = elim (validate_assignment r a) [
  | err e ↦ (err e, r)
  | ok _ ↦ (ok tt, record r { assignments = HashMap.push_at r.assignments a.instance_id a })
]

unfoldable pub revoke_capability :
    CapabilityRegistry → String → String → Result Bool CoreError × CapabilityRegistry
revoke_capability r instance_id capability_id = elim (HashMap.get r.assignments instance_id) [
  | none ↦ (ok false, r)
  | some assignments ↦
      let keep = λ (x : CapabilityAssignment). not (x.capability_id == capability_id) in
      let kept = retain keep assignments in
      let retained = HashMap.modify r.assignments instance_id (retain keep) in
      let was_removed = ltb (length kept) (length assignments) in
      (
        ok was_removed,
        record r {
          assignments = if is_empty kept then HashMap.remove retained instance_id else retained;
        },
      )
]

unfoldable pub get_capabilities : CapabilityRegistry → String → Option (List CapabilityAssignment)
get_capabilities r instance_id = HashMap.get r.assignments instance_id

unfoldable pub has_capability : CapabilityRegistry → String → String → Bool
unfolding any
has_capability r instance_id capability_id =
    unwrap_or
      (Option.map (λ (l : List CapabilityAssignment). any l (λ a. a.capability_id == capability_id))
        (HashMap.get r.assignments instance_id))
      false

unfoldable pub has_permission : CapabilityRegistry → String → String → String → Bool
unfolding any retain grants
has_permission r instance_id capability_id permission =
    unwrap_or
      (Option.map
        (λ (l : List CapabilityAssignment).
          any (retain (λ a. a.capability_id == capability_id) l) (λ a. grants a permission))
        (HashMap.get r.assignments instance_id))
      false

unfoldable pub get_instances : CapabilityRegistry → List String
get_instances r = HashMap.keys r.assignments

unfoldable pub clear_instance : CapabilityRegistry → String → CapabilityRegistry
clear_instance r instance_id = record r { assignments = HashMap.remove r.assignments instance_id }

abbrev pub sum_lengths : List (List CapabilityAssignment) → ℕ
sum_lengths [] = 0
sum_lengths (l ∷ ls) = length l + sum_lengths ls

unfoldable pub assignment_count : CapabilityRegistry → ℕ
assignment_count r = sum_lengths (HashMap.values r.assignments)

abbrev pub kv_permission : String → Option String
kv_permission operation =
    if operation == "get"
    then some "kv:read"
    else if operation == "list"
    then some "kv:read"
    else if operation == "exists"
    then some "kv:read"
    else if operation == "set"
    then some "kv:write"
    else if operation == "delete"
    then some "kv:delete"
    else none

abbrev pub http_permission : String → Option String
http_permission operation = if operation == "request" then some "http:request" else none

abbrev pub messaging_permission : String → Option String
messaging_permission operation =
    if operation == "publish"
    then some "msg:publish"
    else if operation == "subscribe"
    then some "msg:subscribe"
    else none

unfoldable pub required_permission : ProviderType → String → Option String
required_permission kv operation = kv_permission operation
required_permission http operation = http_permission operation
required_permission messaging operation = messaging_permission operation

unfoldable pub enforce :
    CapabilityRegistry → String → String → ProviderType → String → Result (Unit {0}) CoreError
enforce r instance_id capability_id provider_type operation = do
  fail_if (not (has_capability r instance_id capability_id)) (
      invalid_capability_assignment (
        format (
          "Instance '" ∷ instance_id ∷ "' does not have capability '" ∷ capability_id ∷ "' assigned"
          ∷ [])))
  required ← ok_or (required_permission provider_type operation) (
      invalid_capability_assignment (
        format
          ("Unknown operation '" ∷ operation ∷ "' for provider type " ∷ debug provider_type ∷ [])))
  fail_if (not (has_permission r instance_id capability_id required)) (
      invalid_capability_assignment (
        format (
          "Permission denied: instance '" ∷ instance_id ∷ "' lacks '" ∷ required
          ∷ "' permission for capability '" ∷ capability_id ∷ "'" ∷ [])))
