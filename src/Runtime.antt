-- ===== src/Runtime.antt =====
-- The crate wasmatrix-runtime: `CapabilityManager` of crates/wasmatrix-runtime/src/capabilities.rs and
-- `WasmRuntime` of crates/wasmatrix-runtime/src/runtime.rs. A `Box<dyn CapabilityProvider>` is a
-- record of a state with the methods of the trait, which change it.
pub mod History
mod Examples
use Prim.Native.String.{[] as end, ◌∷◌ as ◌∷ᶜ◌}
use Prim.Native.Char.{code}
use wasmatrix.Prelude.{
  ℕ, ◌+◌, String, Bool, true, false, ◌&&◌, ◌||◌, leb, Option, none, some, List, [], ◌∷◌, Result, ok,
  err, same_bytes, unwrap_or, format, if◌then◌else◌,
}
use wasmatrix.HashMap
use wasmatrix.HashMap.{HashMap}
use wasmatrix.Core.Wasm.{lacks_magic}
use wasmatrix.Core.Types.{CoreError, wasm_runtime_error, invalid_capability_assignment}
use wasmatrix.Providers.Metadata.{ProviderMetadata}
use wasmatrix.Providers.Json.{SerdeJson}
use wasmatrix.Providers.Kv
use wasmatrix.Providers.Kv.{KvProvider}

pub record CapabilityProvider (J : SerdeJson) : Type 1 where
  pub State : Type 0
  pub state : State
  pub initialize : State → J.Value → Result (Unit {0}) CoreError × State
  pub invoke : State → String → String → J.Value → Result J.Value CoreError × State
  pub shutdown : State → Result (Unit {0}) CoreError × State
  pub get_metadata : State → ProviderMetadata

-- `impl CapabilityProvider for KvProvider`
abbrev pub kv_provider : (J : SerdeJson) → KvProvider → CapabilityProvider J
kv_provider J p = record {
  State = KvProvider;
  state = p;
  initialize = λ p config. (ok tt, Kv.initialize J p config);
  invoke = Kv.invoke J;
  shutdown = λ p. (ok tt, Kv.shutdown p);
  get_metadata = Kv.get_metadata;
}

pub record CapabilityManager (J : SerdeJson) : Type 1 where
  pub providers : HashMap (CapabilityProvider J)

pub data RuntimeBackend : Type 0 where
  wasmtime micro_kvm : RuntimeBackend

pub record WasmRuntime (J : SerdeJson) : Type 1 where
  pub backend : RuntimeBackend
  pub capabilities : CapabilityManager J

abbrev codes : String → List ℕ
codes end = []
codes (c ∷ᶜ s) = code c ∷ codes s

-- `to_ascii_lowercase`, on the numbers of the characters
abbrev lower : List ℕ → List ℕ
lower [] = []
lower (c ∷ cs) = (if leb 65 c && leb c 90 then c + 32 else c) ∷ lower cs

module _ {J : SerdeJson} where
  abbrev pub with_state : (d : CapabilityProvider J) → d.State → CapabilityProvider J
  with_state d state = record {
    State = d.State;
    state = state;
    initialize = d.initialize;
    invoke = d.invoke;
    shutdown = d.shutdown;
    get_metadata = d.get_metadata;
  }

  abbrev pub new_manager : CapabilityManager J
  new_manager = record { providers = HashMap.empty }

  unfoldable pub register_provider :
      CapabilityManager J
      → String
      → CapabilityProvider J
      → Result (Unit {0}) CoreError × CapabilityManager J
  register_provider m provider_id provider =
      let initialized = provider.initialize provider.state (J.object []) in
      elim initialized.0 [
        | err e ↦ (err e, m)
        | ok _ ↦ (
          ok tt,
          record {
            providers = HashMap.insert m.providers provider_id (with_state provider initialized.1);
          },
        )
      ]

  -- `CapabilityManager::invoke`
  unfoldable pub invoke :
      CapabilityManager J
      → String
      → String
      → String
      → J.Value
      → Result J.Value CoreError × CapabilityManager J
  invoke m instance_id capability_id operation params =
      elim (HashMap.get m.providers capability_id) [
        | none ↦ (
          err (
              invalid_capability_assignment
                (format ("Provider '" ∷ capability_id ∷ "' is not registered" ∷ []))),
          m,
        )
        | some provider ↦
            let answer = provider.invoke provider.state instance_id operation params in
            (
              answer.0,
              record {
                providers = HashMap.insert m.providers capability_id (with_state provider answer.1);
              },
            )
      ]

  unfoldable pub new_with_backend : RuntimeBackend → WasmRuntime J
  unfolding register_provider
  new_with_backend backend = record {
    backend = backend;
    capabilities =
        (register_provider new_manager "default-kv" (kv_provider J (Kv.new "default-kv"))).1;
  }

  unfoldable pub new : WasmRuntime J
  unfolding new_with_backend
  new = new_with_backend wasmtime

  -- `variable` is what the environment has for WASM_RUNTIME_BACKEND
  unfoldable pub from_env : Option String → WasmRuntime J
  unfolding new_with_backend same_bytes
  from_env variable =
      let name = lower (codes (unwrap_or variable "wasmtime")) in
      new_with_backend (
        if same_bytes name (codes "micro-kvm") || same_bytes name (codes "microkvm")
        then micro_kvm
        else wasmtime)

  unfoldable pub execute_module : WasmRuntime J → List ℕ → Result String CoreError
  execute_module r module_bytes =
      if lacks_magic module_bytes
      then err (wasm_runtime_error "Invalid Wasm module format")
      else ok (elim r.backend [
        | wasmtime ↦ "executed with wasmtime"
        | micro_kvm ↦ "executed with micro-kvm"
      ])

  unfoldable pub invoke_capability :
      WasmRuntime J → String → String → String → J.Value → Result J.Value CoreError × WasmRuntime J
  invoke_capability r instance_id capability_id operation params =
      let answer = invoke r.capabilities instance_id capability_id operation params in
      (answer.0, record r { capabilities = answer.1 })
