-- ===== src/Core/Registry.antt =====
-- `MetadataRegistry` of crates/wasmatrix-core/src/lib.rs: instances and providers, stored apart.
use wasmatrix.Prelude.{String, ◌≡◌, refl, Option, some, ◌==◌, if◌then◌else◌}
use wasmatrix.HashMap
use wasmatrix.HashMap.{HashMap, get-insert}
use wasmatrix.Core.Types.{DateTime, InstanceMetadata, ProviderType}

pub record ProviderMetadata : Type 0 where
  pub provider_id : String
  pub provider_type : ProviderType
  pub version : String
  pub created_at : DateTime

unfoldable pub new_provider_metadata : DateTime → String → ProviderType → String → ProviderMetadata
new_provider_metadata now provider_id provider_type version = record {
  provider_id = provider_id;
  provider_type = provider_type;
  version = version;
  created_at = now;
}

pub record MetadataRegistry : Type 0 where
  pub instances : HashMap InstanceMetadata
  pub providers : HashMap ProviderMetadata

unfoldable pub store_instance : MetadataRegistry → InstanceMetadata → MetadataRegistry
store_instance r metadata = record r {
  instances = HashMap.insert r.instances metadata.instance_id metadata;
}

unfoldable pub store_provider : MetadataRegistry → ProviderMetadata → MetadataRegistry
store_provider r metadata = record r {
  providers = HashMap.insert r.providers metadata.provider_id metadata;
}

unfoldable pub get_instance : MetadataRegistry → String → Option InstanceMetadata
get_instance r instance_id = HashMap.get r.instances instance_id

unfoldable pub get_provider : MetadataRegistry → String → Option ProviderMetadata
get_provider r provider_id = HashMap.get r.providers provider_id

-- Storing an instance makes it the answer for its own identifier, leaves the answers for all other
-- identifiers as they were, and changes no answer about providers.
pub get_instance-store_instance :
    (r : MetadataRegistry) (m : InstanceMetadata) (id : String)
    → (get_instance (store_instance r m) id
        ≡ (if m.instance_id == id then some m else get_instance r id))
      × (get_provider (store_instance r m) id ≡ get_provider r id)
unfolding get_instance store_instance get_provider
get_instance-store_instance r m id = (get-insert r.instances m.instance_id id m, refl)

-- The same for a provider: its own identifier answers with it, every other answer stays.
pub get_provider-store_provider :
    (r : MetadataRegistry) (m : ProviderMetadata) (id : String)
    → (get_provider (store_provider r m) id
        ≡ (if m.provider_id == id then some m else get_provider r id))
      × (get_instance (store_provider r m) id ≡ get_instance r id)
unfolding get_instance store_provider get_provider
get_provider-store_provider r m id = (get-insert r.providers m.provider_id id m, refl)
