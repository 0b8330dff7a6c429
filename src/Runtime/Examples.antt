-- ===== src/Runtime/Examples.antt =====
-- The runtime at concrete inputs, and the theorem there.
use wasmatrix.Prelude.{◌≡◌, refl, none, some, List, [], ◌∷◌, ok, err, unwrap_or, is_some}
use wasmatrix.Core.Types.{wasm_runtime_error}
use wasmatrix.Providers.Concrete.{simple_json, Value}
use wasmatrix.Providers.Kv.History.{last_write}
use wasmatrix.Runtime.{
  WasmRuntime, wasmtime, new, new_with_backend, from_env, execute_module, invoke_capability,
}
use wasmatrix.Runtime.History.{Call, calls_of, runtime_run, invoke_capability-runtime_run}

abbrev params : Value
params = simple_json.object (("key", simple_json.text "k") ∷ ("value", simple_json.text "v") ∷ [])

abbrev calls : List (Call simple_json)
calls =
    ("default-kv", record { instance_id = "a"; operation = "set"; params = params })
    ∷ ("other", record { instance_id = "a"; operation = "delete"; params = params })
    ∷ []

invoke_capability-runtime_run_example :
    let r = runtime_run simple_json (new_with_backend wasmtime) calls in
    let value = last_write simple_json "k" (calls_of simple_json "default-kv" calls) none in
    ((invoke_capability r "b" "default-kv" "get" params).0
      ≡ ok (simple_json.text (unwrap_or value "")))
    × ((invoke_capability r "b" "default-kv" "exists" params).0
        ≡ ok (simple_json.bool (is_some value)))
invoke_capability-runtime_run_example =
    invoke_capability-runtime_run simple_json wasmtime calls "b" "k" params refl

stored_test : last_write simple_json "k" (calls_of simple_json "default-kv" calls) none ≡ some "v"
stored_test = refl

abbrev named : WasmRuntime simple_json
named = from_env (some "Micro-KVM")

-- the name of the backend is read without regard to case
backend_test : execute_module named (0 ∷ 97 ∷ 115 ∷ 109 ∷ []) ≡ ok "executed with micro-kvm"
unfolding execute_module from_env wasmatrix.Core.Wasm.lacks_magic
backend_test = refl

format_test :
    execute_module (new {J = simple_json}) (1 ∷ [])
    ≡ err (wasm_runtime_error "Invalid Wasm module format")
unfolding execute_module new wasmatrix.Core.Wasm.lacks_magic
format_test = refl
