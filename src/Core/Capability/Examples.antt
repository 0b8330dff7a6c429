-- ===== src/Core/Capability/Examples.antt =====
-- Runs of the capability registry, and the theorems at concrete inputs.
use wasmatrix.Prelude.{◌≡◌, refl, ◌↔◌, String, true, false, List, [], ◌∷◌, ok, some, is_ok}
use wasmatrix.Core.Types.{CapabilityAssignment, kv}
use wasmatrix.Core.Capability.{
  new, register_provider, assign_capability, revoke_capability, has_capability, has_permission,
  required_permission, enforce,
}
use wasmatrix.Core.Capability.Refinement.{
  Call, registers, assigns, empty_account, account_run, run, enforce-run,
}
use wasmatrix.Core.Capability.Invariant.{IsValid, run-IsValid}
use wasmatrix.Core.Capability.Revocation.{revoke_capability-exact}

abbrev reader : CapabilityAssignment
reader = record {
  instance_id = "instance-1";
  capability_id = "kv-store";
  provider_type = kv;
  permissions = "kv:read" ∷ [];
}

abbrev history : List Call
history = registers "kv-store" kv ∷ assigns reader ∷ []

reads_pass : enforce (run new history) "instance-1" "kv-store" kv "get" ≡ ok tt
unfolding enforce has_capability has_permission required_permission register_provider
    assign_capability wasmatrix.HashMap.get wasmatrix.HashMap.insert wasmatrix.HashMap.push_at
    wasmatrix.HashMap.empty
reads_pass = refl

writes_fail : is_ok (enforce (run new history) "instance-1" "kv-store" kv "set") ≡ false
unfolding enforce has_capability has_permission required_permission register_provider
    assign_capability wasmatrix.HashMap.get wasmatrix.HashMap.insert wasmatrix.HashMap.push_at
    wasmatrix.HashMap.empty
writes_fail = refl

enforce-run_example : (enforce (run new history) "instance-1" "kv-store" kv "get" ≡ ok tt) ↔ (
    (p : String) × (required_permission kv "get" ≡ some p)
    × ((account_run empty_account history).grants "instance-1" "kv-store" p ≡ true))
enforce-run_example = enforce-run history "instance-1" "kv-store" kv "get"

run-IsValid_example : IsValid (run new history)
run-IsValid_example = run-IsValid history

revoke_capability-exact_example :
    ((revoke_capability (run new history) "instance-1" "kv-store").0
      ≡ ok (has_capability (run new history) "instance-1" "kv-store"))
    × (has_capability
          (revoke_capability (run new history) "instance-1" "kv-store").1
          "instance-1"
          "kv-store"
        ≡ false)
    × (has_permission
          (revoke_capability (run new history) "instance-1" "kv-store").1
          "instance-1"
          "kv-store"
          "kv:read"
        ≡ false)
revoke_capability-exact_example =
    revoke_capability-exact (run new history) "instance-1" "kv-store" "instance-1" "kv-store"
      "kv:read"
