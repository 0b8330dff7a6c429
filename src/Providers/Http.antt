-- ===== src/Providers/Http.antt =====
-- The HTTP provider of crates/wasmatrix-providers/src/features/http_provider: the service
-- (service/mod.rs), the controller (controller/mod.rs) and the provider (mod.rs). The URL parser and the
-- client are reqwest's: `host_of` is `Url::parse(url).ok()` with `host_str`, and a `Client` is the
-- trait of repo/mod.rs over a state of the outside world.
pub mod Requests
use wasmatrix.Prelude.{
  ℕ, String, Bool, true, not, Option, none, some, List, [], ◌∷◌, Result, ok, err, ◌>>=◌, ◌>>◌,
  ok_or, fail_if, any, starts_with, ◌==◌, ◌&&◌, format, ◌<>◌, map, if◌then◌else◌,
}
use wasmatrix.HashMap
use wasmatrix.HashMap.{HashMap}
use wasmatrix.Core.Types.{CoreError, http, CapabilityAssignment, has_permission}
use wasmatrix.Providers.Metadata.{ProviderMetadata, refused}
use wasmatrix.Providers.Json.{SerdeJson, text_at, extract_permissions}

module _ (J : SerdeJson) where
  pub record HttpRequest : Type 0 where
    pub method : String
    pub url : String
    pub headers : HashMap String
    pub body : Option J.Value
    pub timeout_ms : Option ℕ

pub record HttpResponse : Type 0 where
  pub status : ℕ
  pub headers : HashMap String
  pub body : String

pub record Client (J : SerdeJson) : Type 1 where
  pub World : Type 0
  pub execute : World → HttpRequest J → Result HttpResponse CoreError × World

unfoldable pub validate_permission :
    (String → Option String) → CapabilityAssignment → String → Result (Unit {0}) CoreError
validate_permission host_of assignment url = do
  fail_if (not (has_permission assignment "http:request"))
      (refused "Permission denied: missing 'http:request' permission")
  host ← ok_or (host_of url) (refused "Invalid URL: unable to extract host")
  fail_if
      (any assignment.permissions (λ p. starts_with p "http:domain:")
        && not (has_permission assignment ("http:domain:" <> host)))
      (refused
        (format ("Permission denied: missing '" ∷ ("http:domain:" <> host) ∷ "' permission" ∷ [])))

abbrev pub assignment_of : String → List String → CapabilityAssignment
assignment_of instance_id permissions = record {
  instance_id = instance_id;
  capability_id = "http-provider";
  provider_type = http;
  permissions = permissions;
}

module _ (J : SerdeJson) where
  -- the members of the `json!` object with the status, the headers and the body
  abbrev pub response_value : HttpResponse → J.Value
  response_value res = J.object (
      ("status", J.number res.status)
      ∷ ("headers", J.object (map (λ e. (e.0, J.text e.1)) res.headers.entries))
      ∷ ("body", J.text res.body)
      ∷ [])

  -- the loop over `raw_headers`
  unfoldable pub read_headers :
      List (String × J.Value) → HashMap String → Result (HashMap String) CoreError
  read_headers [] headers = ok headers
  read_headers ((k, v) ∷ rest) headers = do
    value ← ok_or (J.as_str v) (refused (format ("Header '" ∷ k ∷ "' value must be a string" ∷ [])))
    read_headers rest (HashMap.insert headers k value)

  abbrev pub raw_headers : J.Value → List (String × J.Value)
  raw_headers params = elim (J.get params "headers") [
    | none ↦ []
    | some v ↦ elim (J.as_object v) [ none ↦ [] | some fields ↦ fields ]
  ]

  abbrev pub timeout_of : J.Value → Option ℕ
  timeout_of params = elim (J.get params "timeout_ms") [ none ↦ none | some v ↦ J.as_u64 v ]

  abbrev pub read_request : String → J.Value → Result (String × (String × HashMap String)) CoreError
  read_request operation params = do
    fail_if (not (operation == "request")) (refused ("Unknown HTTP operation: " <> operation))
    method ← ok_or (text_at J params "method") (refused "Missing 'method' parameter")
    url ← ok_or (text_at J params "url") (refused "Missing 'url' parameter")
    headers ← read_headers (raw_headers params) HashMap.empty
    ok (method, (url, headers))

module _ (J : SerdeJson) (host_of : String → Option String) (client : Client J) where
  unfoldable pub execute_request :
      client.World
      → CapabilityAssignment
      → String
      → String
      → HashMap String
      → Option J.Value
      → Option ℕ
      → Result J.Value CoreError × client.World
  execute_request w assignment method url headers body timeout_ms =
      elim (validate_permission host_of assignment url) [
        | err e ↦ (err e, w)
        | ok _ ↦
            let res = client.execute w (record {
              method = method;
              url = url;
              headers = headers;
              body = body;
              timeout_ms = timeout_ms;
            }) in
            (res.0 >>= λ r. ok (response_value J r), res.1)
      ]

  unfoldable pub handle_invoke :
      client.World → String → String → J.Value → Result J.Value CoreError × client.World
  handle_invoke w instance_id operation params = elim (read_request J operation params) [
    | err e ↦ (err e, w)
    | ok (method, (url, headers)) ↦
        execute_request w (assignment_of instance_id (extract_permissions J params)) method url
          headers (J.get params "body") (timeout_of J params)
  ]
