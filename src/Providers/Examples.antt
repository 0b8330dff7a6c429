-- ===== src/Providers/Examples.antt =====
-- The providers at concrete inputs, and the theorems there.
use wasmatrix.Prelude.{
  ℕ, String, Bool, true, false, ◌≡◌, refl, Option, none, some, List, [], ◌∷◌, ◌++◌, Result, ok, err,
  is_ok, ◌⊎◌, ◌>>=◌, not, unwrap_or, is_some, arith,
}
use wasmatrix.HashMap
use wasmatrix.Core.Types.{CoreError, kv, http, messaging, CapabilityAssignment, has_permission}
use wasmatrix.Core.Capability.{validate_permissions}
use wasmatrix.Providers.Json.{text_at, extract_permissions}
use wasmatrix.Providers.Concrete.{simple_json, Value}
use wasmatrix.Providers.Kv
use wasmatrix.Providers.Kv.History as KvHistory
use wasmatrix.Providers.Kv.History.{invoke-invoke_run}
use wasmatrix.Providers.Messaging
use wasmatrix.Providers.Messaging.Service
use wasmatrix.Providers.Messaging.History as MessageHistory
use wasmatrix.Providers.Messaging.History.{invoke_run-history}
use wasmatrix.Providers.Http
use wasmatrix.Providers.Http.{Client, HttpRequest}
use wasmatrix.Providers.Http.Requests.{IsAllowed, handle_invoke-IsAllowed}
use wasmatrix.Providers.Lifecycle.{
  new as new_lifecycle, run, starts, stops, ensures, ends_stopped, ensure_provider_available,
  ensure_provider_available-run,
}
use wasmatrix.Providers.Checks.{is_granted, provider_checks_agree}

abbrev key_k : Value
key_k = simple_json.object (("key", simple_json.text "k") ∷ [])

abbrev set_k : KvHistory.Invocation simple_json
set_k = record {
  instance_id = "a";
  operation = "set";
  params =
      simple_json.object (("key", simple_json.text "k") ∷ ("value", simple_json.text "v") ∷ []);
}

abbrev delete_k : KvHistory.Invocation simple_json
delete_k = record { instance_id = "b"; operation = "delete"; params = key_k }

-- what one instance stores another one reads
invoke-invoke_run_example :
    let q = KvHistory.invoke_run simple_json (Kv.new "kv-1") (delete_k ∷ set_k ∷ []) in
    let value =
      KvHistory.last_write simple_json "k" (delete_k ∷ set_k ∷ []) (Kv.get (Kv.new "kv-1") "k") in
    (Kv.invoke simple_json q "b" "get" key_k ≡ (ok (simple_json.text (unwrap_or value "")), q))
    × (Kv.invoke simple_json q "b" "exists" key_k ≡ (ok (simple_json.bool (is_some value)), q))
invoke-invoke_run_example =
    invoke-invoke_run simple_json (delete_k ∷ set_k ∷ []) (Kv.new "kv-1") "b" "k" key_k refl

abbrev message_params : Value
message_params = simple_json.object (
    ("topic", simple_json.text "news")
    ∷ ("payload", simple_json.text "hello")
    ∷ (
      "permissions",
      simple_json.array
          (simple_json.text "msg:publish" ∷ simple_json.text "msg:subscribe:news" ∷ []),
    )
    ∷ [])

abbrev message_calls : List (MessageHistory.Invocation simple_json)
message_calls =
    record { instance_id = "a"; operation = "publish"; params = message_params }
    ∷ record { instance_id = "a"; operation = "subscribe"; params = message_params }
    ∷ []

messages_test :
    MessageHistory.messages_of simple_json message_calls
    ≡ record { topic = "news"; payload = "hello" } ∷ []
unfolding extract_permissions has_permission wasmatrix.Prelude.contains
messages_test = refl

invoke_run-history_example :
    let r = MessageHistory.invoke_run simple_json Messaging.new message_calls in
    (r.published_messages ≡ [] ++ MessageHistory.messages_of simple_json message_calls)
    × ((i t : String)
        → Messaging.is_subscribed r i t
          ≡ MessageHistory.last_subscription simple_json i t message_calls
              (Messaging.is_subscribed Messaging.new i t))
invoke_run-history_example = invoke_run-history simple_json message_calls Messaging.new

-- a client that keeps what it was sent and answers with one page
abbrev recording : Client simple_json
recording = record {
  World = List (HttpRequest simple_json);
  execute = λ sent request.
      (ok (record { status = 200; headers = HashMap.empty; body = "page" }), request ∷ sent);
}

abbrev host_of : String → Option String
host_of url = some "api.example.com"

abbrev request_params : Value
request_params = simple_json.object (
    ("method", simple_json.text "GET")
    ∷ ("url", simple_json.text "https://api.example.com/v1")
    ∷ (
      "permissions",
      simple_json.array
          (simple_json.text "http:request" ∷ simple_json.text "http:domain:api.example.com" ∷ []),
    )
    ∷ [])

request_is_sent :
    is_ok (Http.handle_invoke simple_json host_of recording [] "a" "request" request_params).0
    ≡ true
unfolding Http.handle_invoke Http.read_headers Http.execute_request Http.validate_permission
    has_permission wasmatrix.Prelude.contains extract_permissions wasmatrix.Prelude.any
request_is_sent = refl

handle_invoke-IsAllowed_example :
    let assignment = Http.assignment_of "a" (extract_permissions simple_json request_params) in
    let answer = Http.handle_invoke simple_json host_of recording [] "a" "request" request_params in
    ((request : HttpRequest simple_json) × ((text_at simple_json request_params "url"
          ≡ some request.url)
        × (IsAllowed host_of assignment request.url
            × (answer ≡ (
              (recording.execute [] request).0 >>= λ r. ok (Http.response_value simple_json r),
              (recording.execute [] request).1,
            )))))
    ⊎ ((e : CoreError) × (answer ≡ (err e, [])))
handle_invoke-IsAllowed_example =
    handle_invoke-IsAllowed simple_json host_of recording [] "a" "request" request_params

ensure_provider_available-run_example :
    let calls = stops "kv-1" ∷ ensures "http-1" ∷ starts "kv-1" ∷ stops "http-1" ∷ [] in
    is_ok (ensure_provider_available (run new_lifecycle calls) "http-1").0
    ≡ not (ends_stopped "http-1" calls false)
ensure_provider_available-run_example =
    ensure_provider_available-run
      (stops "kv-1" ∷ ensures "http-1" ∷ starts "kv-1" ∷ stops "http-1" ∷ []) "http-1"

abbrev reader : CapabilityAssignment
reader = record {
  instance_id = "a";
  capability_id = "kv-1";
  provider_type = kv;
  permissions = "kv:read" ∷ [];
}

abbrev caller : CapabilityAssignment
caller = Http.assignment_of "a" ("http:request" ∷ [])

abbrev sender : CapabilityAssignment
sender = Service.assignment_of "a" ("msg:publish" ∷ [])

caller_is_valid : validate_permissions caller http ≡ ok tt
unfolding validate_permissions
caller_is_valid = refl

sender_is_valid : validate_permissions sender messaging ≡ ok tt
unfolding validate_permissions
sender_is_valid = refl

provider_checks_agree_example :
    (is_ok (Kv.validate_permission (Kv.new "kv-1") reader "exists") ≡ false)
    × (is_ok (Http.validate_permission host_of caller "https://api.example.com")
        ≡ is_granted caller http "request")
    × (is_ok (Service.validate_permission "msg:publish" sender "news")
        ≡ is_granted sender messaging "publish")
    × (is_ok (Service.validate_permission "msg:subscribe" sender "news")
        ≡ is_granted sender messaging "subscribe")
provider_checks_agree_example =
    provider_checks_agree reader caller sender (Kv.new "kv-1") "exists" host_of
      "https://api.example.com" "api.example.com" "news" caller_is_valid refl sender_is_valid
