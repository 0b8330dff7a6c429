-- ===== src/Proto/Conversion/Codec.antt =====
-- A conversion of enumerations that satisfies the law, with the numbers that
-- crates/wasmatrix-proto/proto/wasmatrix.proto gives to the variants. Tests run on it.
use wasmatrix.Prelude.{
  ℕ, ◌-◌, ℤ, pos, negsuc, List, [], ◌∷◌, Option, some, none, arith, eqb, if◌then◌else◌,
}
use wasmatrix.Proto.V1

-- the variants at the numbers from 0 on
abbrev find_variant {ℓ} : {E : Type ℓ} → List E → ℕ → Option E
find_variant [] k = none
find_variant (e ∷ es) k = let rest = find_variant es (k - 1) in if eqb k 0 then some e else rest

abbrev of_number {ℓ} : {E : Type ℓ} → List E → ℤ → Option E
of_number variants (pos k) = find_variant variants k
of_number variants (negsuc k) = none

abbrev provider_type_code : V1.ProviderType → ℤ
provider_type_code V1.unspecified_provider_type = pos 0
provider_type_code V1.kv = pos 1
provider_type_code V1.http = pos 2
provider_type_code V1.messaging = pos 3

abbrev instance_status_code : V1.InstanceStatus → ℤ
instance_status_code V1.unspecified_instance_status = pos 0
instance_status_code V1.starting = pos 1
instance_status_code V1.running = pos 2
instance_status_code V1.stopped = pos 3
instance_status_code V1.crashed = pos 4

abbrev restart_policy_type_code : V1.RestartPolicyType → ℤ
restart_policy_type_code V1.unspecified_restart_policy_type = pos 0
restart_policy_type_code V1.never = pos 1
restart_policy_type_code V1.always = pos 2
restart_policy_type_code V1.on_failure = pos 3

abbrev pub generated : V1.Generated
generated = record {
  provider_type = record {
    to_i32 = provider_type_code;
    of_i32 = of_number (V1.unspecified_provider_type ∷ V1.kv ∷ V1.http ∷ V1.messaging ∷ []);
  };
  instance_status = record {
    to_i32 = instance_status_code;
    of_i32 =
        of_number (
          V1.unspecified_instance_status ∷ V1.starting ∷ V1.running ∷ V1.stopped ∷ V1.crashed ∷ []);
  };
  restart_policy_type = record {
    to_i32 = restart_policy_type_code;
    of_i32 =
        of_number (V1.unspecified_restart_policy_type ∷ V1.never ∷ V1.always ∷ V1.on_failure ∷ []);
  };
}

pub generated-IsGenerated : V1.IsGenerated generated
generated-IsGenerated = record {
  provider_types = λ n e. ground arith;
  instance_statuses = λ n e. ground arith;
  restart_policy_types = λ n e. ground arith;
}
