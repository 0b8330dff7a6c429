-- ===== src/NodeRouting/Etcd.antt =====
-- `EtcdMetadataRepository` of
-- crates/wasmatrix-control-plane/src/features/node_routing/repo/etcd.rs, an in-memory store. The
-- printing of times is a parameter.
use wasmatrix.Prelude.{
  String, List, [], ◌∷◌, Option, none, some, Result, ok, err, if◌then◌else◌, starts_with, ◌<>◌,
  format,
}
use wasmatrix.HashMap
use wasmatrix.HashMap.{HashMap}
use wasmatrix.Core.Types.{DateTime}

pub data EtcdMetadataKind : Type 0 where
  node provider : EtcdMetadataKind

pub record EtcdMetadataRepository : Type 0 where
  pub storage : HashMap String

abbrev pub new_etcd : EtcdMetadataRepository
new_etcd = record { storage = HashMap.empty }

unfoldable pub classify_key : String → Option EtcdMetadataKind
classify_key key =
    if starts_with key "/wasmatrix/nodes/"
    then some node
    else if starts_with key "/wasmatrix/providers/"
    then some provider
    else none

unfoldable pub put_limited_metadata :
    EtcdMetadataRepository → String → String → Result (Unit {0}) String × EtcdMetadataRepository
put_limited_metadata etcd key value = elim (classify_key key) [
  | some kind ↦ (ok tt, record etcd { storage = HashMap.insert etcd.storage key value })
  | none ↦ (err ("disallowed etcd key: " <> key), etcd)
]

unfoldable pub put_node_presence :
    (DateTime → String)
    → EtcdMetadataRepository
    → String
    → String
    → DateTime
    → Result (Unit {0}) String × EtcdMetadataRepository
put_node_presence to_rfc3339 etcd node_id node_address heartbeat =
    put_limited_metadata etcd ("/wasmatrix/nodes/" <> node_id) (
      format (
        "{\"node_id\":\""
        ∷ node_id
        ∷ "\",\"node_address\":\""
        ∷ node_address
        ∷ "\",\"heartbeat\":\""
        ∷ to_rfc3339 heartbeat
        ∷ "\"}"
        ∷ []))

unfoldable pub put_provider_metadata :
    (DateTime → String)
    → EtcdMetadataRepository
    → String
    → String
    → String
    → DateTime
    → Result (Unit {0}) String × EtcdMetadataRepository
put_provider_metadata to_rfc3339 etcd provider_id provider_type node_id updated_at =
    put_limited_metadata etcd ("/wasmatrix/providers/" <> provider_id) (
      format (
        "{\"provider_id\":\""
        ∷ provider_id
        ∷ "\",\"provider_type\":\""
        ∷ provider_type
        ∷ "\",\"node_id\":\""
        ∷ node_id
        ∷ "\",\"updated_at\":\""
        ∷ to_rfc3339 updated_at
        ∷ "\"}"
        ∷ []))

abbrev pub etcd_keys : EtcdMetadataRepository → List String
etcd_keys etcd = HashMap.keys etcd.storage
