-- ===== src/Core/Isolation.antt =====
-- `IsolationPolicy` and `IsolationSandbox` of crates/wasmatrix-core/src/isolation.rs.
pub mod Scoping
pub mod Runs
mod Examples
use wasmatrix.Prelude.{
  ℕ, String, Bool, true, false, not, ◌&&◌, ◌||◌, Option, none, some, List, [], ◌∷◌, any, all,
  same_bytes, is_empty, unwrap_or, ◌==◌, Result, ok, if◌then◌else◌,
}
use wasmatrix.HashMap
use wasmatrix.HashMap.{HashMap}
use wasmatrix.Core.Types.{CoreError, CapabilityAssignment}
use mathlib.Core.Option

-- `==` on vectors of texts and on optional byte vectors
unfoldable pub same_texts : List String → List String → Bool
same_texts [] [] = true
same_texts (s ∷ ss) (t ∷ ts) = s == t && same_texts ss ts
same_texts _ _ = false

abbrev pub same_memory : Option (List ℕ) → Option (List ℕ) → Bool
same_memory none none = true
same_memory (some xs) (some ys) = same_bytes xs ys
same_memory _ _ = false

-- `IsolationPolicy::verify_capability_isolation`
unfoldable pub policy_verify_capability_isolation :
    String → List CapabilityAssignment → String → List CapabilityAssignment → Result Bool CoreError
unfolding any same_texts
policy_verify_capability_isolation instance_a assignments_a instance_b assignments_b = ok (
    any assignments_a (λ a.
      any assignments_b
        (λ b. a.capability_id == b.capability_id && same_texts a.permissions b.permissions)))

-- `IsolationPolicy::verify_provider_scoping`; the warning that it logs is left out
unfoldable pub verify_provider_scoping : String → List CapabilityAssignment → Result Bool CoreError
unfolding all
verify_provider_scoping requesting_instance assignments =
    ok (all assignments (λ a. a.instance_id == requesting_instance))

pub record IsolationSandbox : Type 0 where
  pub instance_memory : HashMap (List ℕ)
  pub instance_capabilities : HashMap (List CapabilityAssignment)

abbrev pub new : IsolationSandbox
new = record { instance_memory = HashMap.empty; instance_capabilities = HashMap.empty }

unfoldable pub register_instance :
    IsolationSandbox
    → String
    → List CapabilityAssignment
    → Result (Unit {0}) CoreError × IsolationSandbox
register_instance s instance_id capabilities = (
  ok tt,
  record {
    instance_memory = HashMap.insert s.instance_memory instance_id [];
    instance_capabilities = HashMap.insert s.instance_capabilities instance_id capabilities;
  },
)

unfoldable pub unregister_instance :
    IsolationSandbox → String → Result (Unit {0}) CoreError × IsolationSandbox
unregister_instance s instance_id = (
  ok tt,
  record {
    instance_memory = HashMap.remove s.instance_memory instance_id;
    instance_capabilities = HashMap.remove s.instance_capabilities instance_id;
  },
)

unfoldable pub verify_memory_isolation : IsolationSandbox → String → String → Result Bool CoreError
unfolding same_bytes
verify_memory_isolation s instance_id target_instance_id = ok (
    not (instance_id == target_instance_id)
    || not (
        same_memory (HashMap.get s.instance_memory instance_id)
          (HashMap.get s.instance_memory target_instance_id)))

-- the loop that returns at the first assignment for the capability
unfoldable pub first_scoped : String → String → List CapabilityAssignment → Bool
first_scoped instance_id capability_id [] = false
first_scoped instance_id capability_id (cap ∷ caps) =
    if cap.capability_id == capability_id
    then cap.instance_id == instance_id
    else first_scoped instance_id capability_id caps

unfoldable pub verify_capability_isolation :
    IsolationSandbox → String → String → String → Result Bool CoreError
unfolding any first_scoped
verify_capability_isolation s instance_id target_instance_id capability_id =
    let caps = HashMap.get s.instance_capabilities instance_id in
    let can_access =
      unwrap_or
        (Option.map
          (λ (l : List CapabilityAssignment). any l (λ c. c.capability_id == capability_id)) caps)
        false in
    if can_access then ok (first_scoped instance_id capability_id (unwrap_or caps [])) else ok false

unfoldable pub is_instance_registered : IsolationSandbox → String → Bool
is_instance_registered s instance_id = HashMap.contains_key s.instance_memory instance_id

unfoldable pub get_instance_capabilities :
    IsolationSandbox → String → Option (List CapabilityAssignment)
get_instance_capabilities s instance_id = HashMap.get s.instance_capabilities instance_id

unfoldable pub instance_count : IsolationSandbox → ℕ
instance_count s = HashMap.len s.instance_memory
