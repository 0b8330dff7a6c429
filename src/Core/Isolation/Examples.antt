-- ===== src/Core/Isolation/Examples.antt =====
-- The isolation theorems at concrete inputs.
use wasmatrix.Prelude.{◌≡◌, refl, true, [], ◌∷◌, ok, some}
use wasmatrix.Core.Types.{CapabilityAssignment, kv}
use wasmatrix.Core.Isolation.{
  IsolationSandbox, new, register_instance, verify_memory_isolation, verify_provider_scoping,
  verify_capability_isolation, is_instance_registered, get_instance_capabilities,
}
use wasmatrix.Core.Isolation.Scoping.{verify_memory_isolation-eq}
use wasmatrix.Core.Isolation.Runs.{registers, unregisters, run, owns, isolation_run-last}
use wasmatrix.HashMap

abbrev own : CapabilityAssignment
own = record {
  instance_id = "a";
  capability_id = "kv-1";
  provider_type = kv;
  permissions = "kv:read" ∷ [];
}

abbrev sandbox : IsolationSandbox
unfolding register_instance wasmatrix.HashMap.insert wasmatrix.HashMap.empty
sandbox = (register_instance new "a" (own ∷ [])).1

stored : get_instance_capabilities sandbox "a" ≡ some (own ∷ [])
unfolding sandbox get_instance_capabilities wasmatrix.HashMap.get
stored = refl

scoped : verify_provider_scoping "a" (own ∷ []) ≡ ok true
unfolding verify_provider_scoping
scoped = refl

memory_check : verify_memory_isolation sandbox "a" "b" ≡ ok true
memory_check = verify_memory_isolation-eq sandbox "a" "b"

isolation_run-last_example :
    let s = run new (registers "a" (own ∷ []) ∷ registers "b" [] ∷ unregisters "b" ∷ []) in
    (is_instance_registered s "a" ≡ true)
    × (get_instance_capabilities s "a" ≡ some (own ∷ []))
    × (HashMap.get s.instance_memory "a" ≡ some [])
    × (verify_capability_isolation s "a" "b" "kv-1" ≡ ok (owns "a" "kv-1" (some (own ∷ []))))
    × (verify_memory_isolation s "a" "b" ≡ ok true)
isolation_run-last_example =
    isolation_run-last (registers "a" (own ∷ []) ∷ registers "b" [] ∷ unregisters "b" ∷ []) "a" "b"
      "kv-1"
