-- ===== src/Providers/Http/Requests.antt =====
-- Which requests the HTTP provider sends.
use wasmatrix.Prelude.{
  String, true, ◌≡◌, refl, ◌↔◌, ◌⊎◌, inl, inr, Option, some, ok, err, ◌>>=◌, any, starts_with, ◌<>◌,
  arith, Result-cases, Option-cases, Bool-cases,
}
use wasmatrix.HashMap
use wasmatrix.HashMap.{HashMap}
use wasmatrix.Core.Types.{CoreError, CapabilityAssignment, has_permission}
use wasmatrix.Providers.Json.{SerdeJson, text_at, extract_permissions}
use wasmatrix.Providers.Http.{
  HttpRequest, Client, validate_permission, assignment_of, execute_request, handle_invoke,
  read_request, response_value, timeout_of, read_headers, raw_headers,
}

module _ (host_of : String → Option String) where
  -- the permission for requests, and the one for the host where there is any for a host
  abbrev pub IsAllowed : CapabilityAssignment → String → Type 0
  IsAllowed assignment url =
      (has_permission assignment "http:request" ≡ true)
      × ((host : String) × ((host_of url ≡ some host)
            × (any assignment.permissions (λ p. starts_with p "http:domain:") ≡ true
                → has_permission assignment ("http:domain:" <> host) ≡ true)))

  pub validate_permission_iff :
      (assignment : CapabilityAssignment) (url : String)
      → (validate_permission host_of assignment url ≡ ok tt) ↔ IsAllowed assignment url
  unfolding validate_permission
  validate_permission_iff assignment url = elim (Option-cases (host_of url)) [
    | inl e ↦ (λ h. absurd (ground (arith, e)), λ (p, (host, (q, r))). absurd (ground (arith, e)))
    | inr (host, e) ↦ (
      λ h. (ground (arith, e), (host, (e, λ d. ground (arith, e)))),
      λ (p, (host', (q, r))).
          elim (Bool-cases (any assignment.permissions (λ p. starts_with p "http:domain:"))) [
            | inl d ↦ ground (arith, p, e, q, d, r d)
            | inr d ↦ ground (arith, p, e, q, d)
          ],
    )
  ]

module _ (J : SerdeJson) (host_of : String → Option String) (client : Client J) where
  url_of_read :
      (operation : String) (params : J.Value)
      → (method url : String) (headers : HashMap String)
      → read_request J operation params ≡ ok (method, (url, headers))
      → text_at J params "url" ≡ some url
  url_of_read operation params method url headers h =
      elim (Result-cases (read_headers J (raw_headers J params) HashMap.empty)) [
        | inl (hs, e) ↦ ground (arith, h, e)
        | inr (x, e) ↦ absurd (ground (arith, h, e))
      ]

  -- An invocation of the HTTP provider either fails and sends nothing, or sends one request, to the
  -- URL of its parameters, which its permissions allow, and answers with what comes back.
  pub handle_invoke-IsAllowed :
      (w : client.World) (instance_id operation : String) (params : J.Value)
      → let assignment = assignment_of instance_id (extract_permissions J params) in
        let answer = handle_invoke J host_of client w instance_id operation params in
        ((request : HttpRequest J) × ((text_at J params "url" ≡ some request.url)
            × (IsAllowed host_of assignment request.url
                × (answer ≡ (
                  (client.execute w request).0 >>= λ r. ok (response_value J r),
                  (client.execute w request).1,
                )))))
        ⊎ ((e : CoreError) × (answer ≡ (err e, w)))
  unfolding handle_invoke execute_request
  handle_invoke-IsAllowed w instance_id operation params =
      let assignment = assignment_of instance_id (extract_permissions J params) in
      elim (Result-cases (read_request J operation params)) [
        | inr (x, e) ↦ inr (x, rw (handle_invoke, e) refl)
        | inl (parts, e) ↦
            let url = parts.1.0 in
            elim (Result-cases (validate_permission host_of assignment url)) [
              | inr (x, f) ↦ inr (x, rw (handle_invoke, e, execute_request, f) refl)
              | inl (u, f) ↦
                  let request : HttpRequest J = record {
                    method = parts.0;
                    url = url;
                    headers = parts.1.1;
                    body = J.get params "body";
                    timeout_ms = timeout_of J params;
                  } in
                  inl (
                    request,
                    (
                      url_of_read operation params parts.0 url parts.1.1 e,
                      (
                        (validate_permission_iff host_of assignment url).0 f,
                        rw (handle_invoke, e, execute_request, f) refl,
                      ),
                    ),
                  )
            ]
      ]
