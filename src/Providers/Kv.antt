-- ===== src/Providers/Kv.antt =====
-- `KvProvider` of crates/wasmatrix-providers/src/kv_provider.rs. A poisoned lock is left out, so the
-- direct operations have no error.
pub mod History
use wasmatrix.Prelude.{
  String, Bool, true, not, Option, none, some, List, [], ◌∷◌, map, Result, ok, err, ◌>>=◌, ◌>>◌,
  ok_or, fail_if, unwrap_or, retain, starts_with, ◌==◌, ◌||◌, format, if◌then◌else◌,
}
use wasmatrix.HashMap
use wasmatrix.HashMap.{HashMap}
use wasmatrix.Core.Types.{CoreError, kv, CapabilityAssignment, has_permission}
use wasmatrix.Providers.Metadata.{ProviderMetadata, refused}
use wasmatrix.Providers.Json.{SerdeJson, index}

pub record KvProvider : Type 0 where
  pub storage : HashMap String
  pub metadata : ProviderMetadata

abbrev pub new : String → KvProvider
new provider_id = record {
  storage = HashMap.empty;
  metadata = record { provider_id = provider_id; provider_type = kv; version = "0.1.0" };
}

unfoldable pub permission_for : String → Option String
permission_for operation =
    if operation == "get" || operation == "list"
    then some "kv:read"
    else if operation == "set"
    then some "kv:write"
    else if operation == "delete"
    then some "kv:delete"
    else none

unfoldable pub validate_permission :
    KvProvider → CapabilityAssignment → String → Result (Unit {0}) CoreError
unfolding permission_for
validate_permission p assignment operation = do
  required_permission ←
      ok_or (permission_for operation) (refused (format ("Unknown operation: " ∷ operation ∷ [])))
  fail_if (not (has_permission assignment required_permission)) (
      refused (format ("Permission denied: missing '" ∷ required_permission ∷ "' permission" ∷ [])))

unfoldable pub get : KvProvider → String → Option String
get p key = HashMap.get p.storage key

unfoldable pub set : KvProvider → String → String → KvProvider
set p key value = record p { storage = HashMap.insert p.storage key value }

unfoldable pub delete : KvProvider → String → Bool × KvProvider
delete p key =
    (HashMap.contains_key p.storage key, record p { storage = HashMap.remove p.storage key })

unfoldable pub list : KvProvider → String → List String
list p prefix = retain (λ k. starts_with k prefix) (HashMap.keys p.storage)

unfoldable pub exists : KvProvider → String → Bool
exists p key = HashMap.contains_key p.storage key

unfoldable pub clear : KvProvider → KvProvider
clear p = record p { storage = HashMap.empty }

unfoldable pub shutdown : KvProvider → KvProvider
shutdown p = clear p

abbrev pub get_metadata : KvProvider → ProviderMetadata
get_metadata p = p.metadata

module _ (J : SerdeJson) where
  unfoldable pub initialize : KvProvider → J.Value → KvProvider
  initialize p config = clear p

  -- `params[key].as_str().ok_or_else(…)`
  abbrev pub parameter : J.Value → String → Result String CoreError
  parameter params key =
      ok_or (J.as_str (index J params key))
        (refused (format ("Missing '" ∷ key ∷ "' parameter" ∷ [])))

  unfoldable pub invoke :
      KvProvider → String → String → J.Value → Result J.Value CoreError × KvProvider
  invoke p instance_id operation params =
      if operation == "get"
      then (parameter params "key" >>= λ key. ok (J.text (unwrap_or (get p key) "")), p)
      else if operation == "set"
      then elim (parameter params "key") [
        | err e ↦ (err e, p)
        | ok key ↦ elim (parameter params "value") [
          | err e ↦ (err e, p)
          | ok value ↦ (ok (J.bool true), set p key value)
        ]
      ]
      else if operation == "delete"
      then elim (parameter params "key") [
        | err e ↦ (err e, p)
        | ok key ↦ let deleted = delete p key in (ok (J.bool deleted.0), deleted.1)
      ]
      else if operation == "list"
      then (
        ok (J.array (map J.text (list p (unwrap_or (J.as_str (index J params "prefix")) "")))),
        p,
      )
      else if operation == "exists"
      then (parameter params "key" >>= λ key. ok (J.bool (exists p key)), p)
      else (err (refused (format ("Unknown operation: " ∷ operation ∷ []))), p)
