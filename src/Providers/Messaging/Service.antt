-- ===== src/Providers/Messaging/Service.antt =====
-- `MessagingProviderService`, `MessagingProviderController` and `MessagingCapabilityProvider` of
-- crates/wasmatrix-providers/src/features/messaging_provider: service/mod.rs, controller/mod.rs and
-- mod.rs.
use wasmatrix.Prelude.{
  String, true, none, some, List, [], ◌∷◌, Result, ok, err, fail_if, not, ◌==◌, ◌||◌, format, ◌<>◌,
  if◌then◌else◌,
}
use wasmatrix.Core.Types.{CoreError, messaging, CapabilityAssignment, has_permission}
use wasmatrix.Providers.Metadata.{ProviderMetadata, refused}
use wasmatrix.Providers.Json.{SerdeJson, text_at, extract_permissions}
use wasmatrix.Providers.Messaging.{
  Repository, new as new_repository, add_message, add_subscription, remove_subscription,
}

-- `validate_publish_permission` and `validate_subscribe_permission`, with "msg:publish" or
-- "msg:subscribe"
unfoldable pub validate_permission :
    String → CapabilityAssignment → String → Result (Unit {0}) CoreError
validate_permission general assignment topic =
    let exact = (general <> ":") <> topic in
    fail_if (not (has_permission assignment general || has_permission assignment exact)) (
      refused (
        format ("Permission denied: missing '" ∷ general ∷ "' or '" ∷ exact ∷ "' permission" ∷ [])))

abbrev pub assignment_of : String → List String → CapabilityAssignment
assignment_of instance_id permissions = record {
  instance_id = instance_id;
  capability_id = "messaging-provider";
  provider_type = messaging;
  permissions = permissions;
}

module _ (J : SerdeJson) where
  unfoldable pub publish :
      Repository → CapabilityAssignment → String → String → Result J.Value CoreError × Repository
  publish r assignment topic payload = elim (validate_permission "msg:publish" assignment topic) [
    | err e ↦ (err e, r)
    | ok _ ↦ (ok (J.object (("published", J.bool true) ∷ [])), add_message r topic payload)
  ]

  unfoldable pub subscribe :
      Repository → CapabilityAssignment → String → Result J.Value CoreError × Repository
  subscribe r assignment topic = elim (validate_permission "msg:subscribe" assignment topic) [
    | err e ↦ (err e, r)
    | ok _ ↦ (
      ok (J.object (("subscribed", J.bool true) ∷ [])),
      add_subscription r assignment.instance_id topic,
    )
  ]

  unfoldable pub unsubscribe :
      Repository → CapabilityAssignment → String → Result J.Value CoreError × Repository
  unsubscribe r assignment topic = elim (validate_permission "msg:subscribe" assignment topic) [
    | err e ↦ (err e, r)
    | ok _ ↦
        let removed = remove_subscription r assignment.instance_id topic in
        (ok (J.object (("unsubscribed", J.bool removed.0) ∷ [])), removed.1)
  ]

  unfoldable pub handle_invoke :
      Repository → String → String → J.Value → Result J.Value CoreError × Repository
  unfolding extract_permissions
  handle_invoke r instance_id operation params = elim (text_at J params "topic") [
    | none ↦ (err (refused "Missing 'topic' parameter"), r)
    | some topic ↦
        let assignment = assignment_of instance_id (extract_permissions J params) in
        if operation == "publish"
        then elim (text_at J params "payload") [
          | none ↦ (err (refused "Missing 'payload' parameter"), r)
          | some payload ↦ publish r assignment topic payload
        ]
        else if operation == "subscribe"
        then subscribe r assignment topic
        else if operation == "unsubscribe"
        then unsubscribe r assignment topic
        else (err (refused ("Unknown messaging operation: " <> operation)), r)
  ]

pub record MessagingCapabilityProvider : Type 0 where
  pub repo : Repository
  pub metadata : ProviderMetadata

abbrev pub new : String → MessagingCapabilityProvider
new provider_id = record {
  repo = new_repository;
  metadata = record { provider_id = provider_id; provider_type = messaging; version = "0.1.0" };
}

module _ (J : SerdeJson) where
  unfoldable pub invoke :
      MessagingCapabilityProvider
      → String
      → String
      → J.Value
      → Result J.Value CoreError × MessagingCapabilityProvider
  invoke p instance_id operation params =
      let answer = handle_invoke J p.repo instance_id operation params in
      (answer.0, record p { repo = answer.1 })
