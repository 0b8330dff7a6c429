-- ===== src/Agent/Invocation.antt =====
-- `invoke_capability` of `NodeAgentServer` in crates/wasmatrix-agent/src/server.rs. A panic of the
-- blocking task that serves HTTP is left out.
pub mod Outcomes
use Prim.Native.String.{String as Text, [] as end, ◌∷◌ as ◌∷ᶜ◌}
use Prim.Native.Char.{code}
use wasmatrix.Prelude.{
  ℕ, ℤ, String, Bool, true, false, ◌&&◌, ◌||◌, leb, eqb, Option, none, some, List, [], ◌∷◌, map,
  Result, ok, err, ◌>>=◌, map_err, ok_or, ◌<>◌, if◌then◌else◌,
}
use wasmatrix.Core.Types.{CoreError, wasm_runtime_error}
use wasmatrix.Core.Errors.{display}
use wasmatrix.Proto.V1
use wasmatrix.Proto.Protocol
use wasmatrix.Proto.Conversion.Parts.{provider_type_of_v1}
use wasmatrix.Providers.Json.{SerdeJson}
use wasmatrix.Providers.Lifecycle.{ensure_provider_available}
use wasmatrix.Providers.Kv
use wasmatrix.Providers.Http
use wasmatrix.Providers.Http.{Client}
use wasmatrix.Providers.Messaging.Service as Messaging
use wasmatrix.Agent.Node.{Engine}
use wasmatrix.Agent.Reporting.{ReportClient}
use wasmatrix.Agent.Server.{NodeAgentServer}

-- the codes of `tonic::Status` that the handler uses
pub data Status : Type 0 where
  failed_precondition invalid_argument : String → Status

-- `char::is_whitespace`, the characters that Unicode counts as white space
abbrev pub is_whitespace : ℕ → Bool
is_whitespace c =
    (leb 9 c && leb c 13)
    || eqb c 32
    || eqb c 0x85
    || eqb c 0xa0
    || eqb c 0x1680
    || (leb 0x2000 c && leb c 0x200a)
    || eqb c 0x2028
    || eqb c 0x2029
    || eqb c 0x202f
    || eqb c 0x205f
    || eqb c 0x3000

-- `text.trim().is_empty()`
unfoldable pub is_blank : String → Bool
is_blank end = true
is_blank (c ∷ᶜ s) = is_whitespace (code c) && is_blank s

-- what the HTTP provider reaches: the state of the world, the client and whether it can be built, and
-- the host of a URL
pub record Outside (J : SerdeJson) : Type 1 where
  pub client : Client J
  pub build_client : Result (Unit {0}) String
  pub host_of : String → Option String

abbrev pub completed : String → V1.InvokeCapabilityResponse
completed result_json = record {
  success = true;
  message = "Capability invocation completed";
  result_json = some result_json;
  error_code = none;
}

abbrev pub failed : String → V1.InvokeCapabilityResponse
failed message = record {
  success = false;
  message = message;
  result_json = none;
  error_code = some "INVOKE_FAILED";
}

module _ (J : SerdeJson) (g : V1.Generated) where
  unfoldable pub read_provider_type :
      V1.InvokeCapabilityRequest → Result Protocol.ProviderType Status
  read_provider_type req = do
    v ←
        ok_or (g.provider_type.of_i32 req.provider_type)
          (invalid_argument "Invalid provider type integer code")
    map_err (λ e. invalid_argument ("Invalid provider type: " <> e)) (provider_type_of_v1 v)

  -- the parameters, with the permissions of the request put in
  unfoldable pub read_params : V1.InvokeCapabilityRequest → Result J.Value Status
  unfolding is_blank
  read_params req = do
    params ←
        (if is_blank req.params_json
          then ok (J.object [])
          else map_err (λ e. invalid_argument ("Invalid params_json payload: " <> e))
              (J.from_str req.params_json))
    ok (J.insert params "permissions" (J.array (map J.text req.permissions)))

  unfoldable pub respond : Result J.Value CoreError → V1.InvokeCapabilityResponse
  respond (ok value) = completed (J.to_string value)
  respond (err error) = failed (display error)

  module _ (outside : Outside J) where
    -- a provider is made for each call, and dropped after it
    unfoldable pub serve :
        outside.client.World
        → Protocol.ProviderType
        → V1.InvokeCapabilityRequest
        → J.Value
        → Result J.Value CoreError × outside.client.World
    serve w Protocol.kv req params =
        ((Kv.invoke J (Kv.new req.capability_id) req.instance_id req.operation params).0, w)
    serve w Protocol.http req params = elim outside.build_client [
      | err e ↦ (
        err (
            wasm_runtime_error (
              "Failed to initialize HTTP provider: "
              <> display (wasm_runtime_error ("failed to build http client: " <> e)))),
        w,
      )
      | ok _ ↦
          Http.handle_invoke J outside.host_of outside.client w req.instance_id req.operation params
    ]
    serve w Protocol.messaging req params = (
      (Messaging.invoke J (Messaging.new req.capability_id) req.instance_id req.operation params).0,
      w,
    )

    unfoldable pub invoke_capability :
        {engine : Engine} {reports : ReportClient}
        → outside.client.World
        → NodeAgentServer engine reports
        → V1.InvokeCapabilityRequest
        → Result V1.InvokeCapabilityResponse Status
          × NodeAgentServer engine reports
          × outside.client.World
    invoke_capability w s req =
        let (available, lifecycle) =
          ensure_provider_available s.provider_lifecycle req.capability_id in
        let after = record s { provider_lifecycle = lifecycle } in
        elim available [
          | err e ↦ (err (failed_precondition (display e)), after, w)
          | ok _ ↦ elim (read_provider_type req) [
            | err e ↦ (err e, after, w)
            | ok provider_type ↦ elim (read_params req) [
              | err e ↦ (err e, after, w)
              | ok params ↦
                  let served = serve w provider_type req params in
                  (ok (respond served.0), after, served.1)
            ]
          ]
        ]
