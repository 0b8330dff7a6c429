-- ===== src/Providers/Checks.antt =====
-- The permission checks of the providers beside those of the core: `validate_permissions` and the
-- table of crates/wasmatrix-core/src/capability.rs.
use wasmatrix.Prelude.{
  String, Bool, true, false, ◌≡◌, refl, Option, none, some, List, [], ◌∷◌, ok, is_ok, any, all,
  contains, starts_with, ◌==◌, eq_iff, ◌<>◌, arith, ==-apart, if◌then◌else◌, Bool-cases, inl, inr,
  sym,
}
use mathlib.Core.Path.{subst}
use text.Mathlib.TextPositions.{starts_with-append}
use wasmatrix.Core.Types.{ProviderType, kv, http, messaging, CapabilityAssignment, has_permission}
use wasmatrix.Core.Capability.{valid_permissions, validate_permissions, required_permission}
use wasmatrix.Core.Capability.Invariant.{check_permissions-all}
use wasmatrix.Providers.Kv
use wasmatrix.Providers.Kv.{KvProvider, permission_for}
use wasmatrix.Providers.Http
use wasmatrix.Providers.Messaging.Service as Messaging

-- what the table of the core asks of an assignment
abbrev pub is_granted : CapabilityAssignment → ProviderType → String → Bool
is_granted a t operation = elim (required_permission t operation) [
  | none ↦ false
  | some required ↦ has_permission a required
]

-- a permission that is held is one of the valid ones
contains-valid :
    (q : String → Bool) (ps : List String) (p : String)
    → all ps q ≡ true
    → contains ps p ≡ true
    → q p ≡ true
unfolding contains all
contains-valid q [] p valid h = absurd (ground arith)
contains-valid q (x ∷ ps) p valid h = elim (Bool-cases (x == p)) [
  | inl e ↦ subst (λ y. q y ≡ true) ((eq_iff x p).0 e) (ground (arith, valid))
  | inr e ↦ contains-valid q ps p (ground (arith, valid)) (ground (arith, h, e))
]

any-invalid :
    (q f : String → Bool) (ps : List String)
    → all ps q ≡ true
    → ((p : String) → q p ≡ true → f p ≡ false)
    → any ps f ≡ false
unfolding any all
any-invalid q f [] valid h = refl
any-invalid q f (x ∷ ps) valid h =
    ground (arith, valid, h x, any-invalid q f ps (ground (arith, valid)) h)

-- a text that does not start with another one is no extension of it
==-append : (s p t : String) → starts_with s p ≡ false → (s == (p <> t)) ≡ false
==-append s p t h = elim (Bool-cases (s == (p <> t))) [
  | inr e ↦ e
  | inl e ↦ absurd (
      ground (
        arith,
        h,
        subst (λ u. starts_with u p ≡ true) (sym ((eq_iff s (p <> t)).0 e))
            (starts_with-append p t),
      ))
]

no_topic_permission :
    (topic : String)
    → (contains (valid_permissions messaging) (("msg:publish" <> ":") <> topic) ≡ false)
      × (contains (valid_permissions messaging) (("msg:subscribe" <> ":") <> topic) ≡ false)
unfolding contains
no_topic_permission topic = (
  rw
      (
        ==-append "msg:publish" "msg:publish:" topic refl,
        ==-append "msg:subscribe" "msg:publish:" topic refl,
      )
      refl,
  rw
      (
        ==-append "msg:publish" "msg:subscribe:" topic refl,
        ==-append "msg:subscribe" "msg:subscribe:" topic refl,
      )
      refl,
)

kv_checks :
    (p : KvProvider) (a : CapabilityAssignment) (operation : String)
    → is_ok (Kv.validate_permission p a operation)
      ≡ (if operation == "exists" then false else is_granted a kv operation)
unfolding Kv.validate_permission permission_for required_permission
kv_checks p a operation = ground (
  arith,
  ==-apart operation "exists" "get" refl,
  ==-apart operation "exists" "list" refl,
  ==-apart operation "exists" "set" refl,
  ==-apart operation "exists" "delete" refl,
)

no_domain :
    (p : String) → contains (valid_permissions http) p ≡ true → starts_with p "http:domain:" ≡ false
unfolding contains
no_domain p h =
    subst (λ q. starts_with q "http:domain:" ≡ false)
      ((eq_iff "http:request" p).0 (ground (arith, h))) refl

http_checks :
    (host_of : String → Option String) (a : CapabilityAssignment) (url host : String)
    → validate_permissions a http ≡ ok tt
    → host_of url ≡ some host
    → is_ok (Http.validate_permission host_of a url) ≡ is_granted a http "request"
unfolding Http.validate_permission validate_permissions required_permission
http_checks host_of a url host valid h = ground (
  arith,
  h,
  any-invalid (contains (valid_permissions http)) (λ p. starts_with p "http:domain:") a.permissions
      (check_permissions-all http a.permissions valid) no_domain,
)

not_held :
    (a : CapabilityAssignment) (permission : String)
    → validate_permissions a messaging ≡ ok tt
    → contains (valid_permissions messaging) permission ≡ false
    → has_permission a permission ≡ false
unfolding has_permission validate_permissions
not_held a permission valid h = elim (Bool-cases (contains a.permissions permission)) [
  | inr e ↦ e
  | inl e ↦ absurd (
      ground (
        arith,
        h,
        contains-valid (contains (valid_permissions messaging)) a.permissions permission
            (check_permissions-all messaging a.permissions valid) e,
      ))
]

messaging_checks :
    (a : CapabilityAssignment) (topic : String)
    → validate_permissions a messaging ≡ ok tt
    → (is_ok (Messaging.validate_permission "msg:publish" a topic)
        ≡ is_granted a messaging "publish")
      × (is_ok (Messaging.validate_permission "msg:subscribe" a topic)
          ≡ is_granted a messaging "subscribe")
unfolding Messaging.validate_permission required_permission
messaging_checks a topic valid =
    let publish = (("msg:publish" <> ":") <> topic) in
    let subscribe = (("msg:subscribe" <> ":") <> topic) in
    (
      ground (arith, not_held a publish valid (no_topic_permission topic).0),
      ground (arith, not_held a subscribe valid (no_topic_permission topic).1),
    )

-- The checks of the providers agree with the core. The KV provider allows an operation exactly if the
-- table of the core grants it, but never "exists", which the table grants to readers. On assignments
-- whose permissions the core takes as valid, the HTTP provider allows a URL with a host exactly if
-- "request" is granted, and the messaging provider a topic exactly if "publish" or "subscribe" is.
pub provider_checks_agree :
    (a b c : CapabilityAssignment) (p : KvProvider) (operation : String)
    → (host_of : String → Option String) (url host topic : String)
    → validate_permissions b http ≡ ok tt
    → host_of url ≡ some host
    → validate_permissions c messaging ≡ ok tt
    → (is_ok (Kv.validate_permission p a operation)
        ≡ (if operation == "exists" then false else is_granted a kv operation))
      × (is_ok (Http.validate_permission host_of b url) ≡ is_granted b http "request")
      × (is_ok (Messaging.validate_permission "msg:publish" c topic)
          ≡ is_granted c messaging "publish")
      × (is_ok (Messaging.validate_permission "msg:subscribe" c topic)
          ≡ is_granted c messaging "subscribe")
provider_checks_agree a b c p operation host_of url host topic valid_b h valid_c = (
  kv_checks p a operation,
  http_checks host_of b url host valid_b h,
  (messaging_checks c topic valid_c).0,
  (messaging_checks c topic valid_c).1,
)
