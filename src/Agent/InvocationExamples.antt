-- ===== src/Agent/InvocationExamples.antt =====
-- Invocations through the agent's server at concrete inputs, and the theorems there.
use wasmatrix.Prelude.{ℕ, pos, String, false, ◌≡◌, refl, ◌⊎◌, none, List, [], ◌∷◌, ok, err}
use wasmatrix.HashMap
use wasmatrix.Core.Types.{CoreError, wasm_runtime_error}
use wasmatrix.Core.Errors.{display}
use wasmatrix.Proto.V1
use wasmatrix.Proto.Protocol
use wasmatrix.Proto.Conversion.Codec.{generated}
use wasmatrix.Proto.Conversion.Parts.{provider_type_of_v1}
use wasmatrix.Providers.Json.{SerdeJson}
use wasmatrix.Providers.Concrete.{simple_json}
use wasmatrix.Providers.Lifecycle.{ensure_provider_available, get_state, is_stopped}
use wasmatrix.Agent.Node.{Engine, new_agent}
use wasmatrix.Agent.Reporting.{ReportClient}
use wasmatrix.Agent.Server.{NodeAgentServer, new, stop_provider}
use wasmatrix.Agent.Invocation.{
  Outside, failed_precondition, read_provider_type, read_params, completed, invoke_capability,
  is_blank,
}
use wasmatrix.Agent.Invocation.Outcomes.{invoke_run, invoke_capability-outcomes, get_after_run}

abbrev accepting : Engine
accepting = record {
  Module = List ℕ;
  Store = ℕ;
  Instance = List ℕ;
  compile = λ now bytes. ok bytes;
  new_store = 0;
  instantiate = λ now store wasm. ok (wasm, store);
}

abbrev silent : ReportClient
silent = record { State = ℕ; report_status = λ s report. (err "unavailable", s) }

abbrev server : NodeAgentServer accepting silent
server = new (new_agent accepting "node-1") none

-- a JSON whose every text is one object with a key and a value
abbrev one_object : SerdeJson
one_object = record simple_json {
  from_str = λ s.
      ok
        (simple_json.object (("key", simple_json.text "k") ∷ ("value", simple_json.text "v") ∷ []));
}

abbrev outside : Outside one_object
outside = record {
  client = record { World = ℕ; execute = λ w request. (err (wasm_runtime_error "no network"), w) };
  build_client = ok tt;
  host_of = λ url. none;
}

abbrev request : String → V1.InvokeCapabilityRequest
request operation = record {
  instance_id = "a";
  capability_id = "kv-1";
  provider_type = pos 1;
  operation = operation;
  params_json = "{ … }";
  permissions = "kv:read" ∷ [];
}

kv_is_running : is_stopped (get_state server.provider_lifecycle "kv-1") ≡ false
unfolding get_state HashMap.get HashMap.empty
kv_is_running = refl

request_is_kv : read_provider_type one_object generated (request "get") ≡ ok Protocol.kv
unfolding read_provider_type provider_type_of_v1
request_is_kv = refl

abbrev params : one_object.Value
params =
    one_object.insert
      (one_object.object (("key", one_object.text "k") ∷ ("value", one_object.text "v") ∷ []))
      "permissions" (one_object.array (one_object.text "kv:read" ∷ []))

params_are_read : read_params one_object generated (request "get") ≡ ok params
unfolding read_params is_blank
params_are_read = refl

get_after_run_example :
    let now = invoke_run one_object generated outside 0 server (request "set" ∷ []) in
    (invoke_capability one_object generated outside now.1 now.0 (request "get")).0
    ≡ ok (completed (one_object.to_string (one_object.text "")))
get_after_run_example =
    get_after_run one_object generated outside (request "set" ∷ []) 0 server (request "get") params
      "k" kv_is_running request_is_kv params_are_read refl refl

abbrev without_kv : NodeAgentServer accepting silent
without_kv = stop_provider server "kv-1"

invoke_capability-outcomes_example :
    let available = ensure_provider_available without_kv.provider_lifecycle "kv-1" in
    let answer = invoke_capability one_object generated outside 0 without_kv (request "get") in
    ((e : CoreError) × (available.0 ≡ err e)
      × (answer ≡ (err (failed_precondition (display e)), without_kv, 0)))
    ⊎ ((available.0 ≡ ok tt)
        × (answer.1.agent ≡ without_kv.agent)
        × (answer.1.status_report_controller ≡ without_kv.status_report_controller)
        × (answer.1.provider_lifecycle ≡ available.1))
invoke_capability-outcomes_example =
    invoke_capability-outcomes one_object generated outside 0 without_kv (request "get")
