-- ===== src/Providers/Metadata.antt =====
-- `ProviderMetadata` and the failures that the providers report, of crates/wasmatrix-providers/src.
use wasmatrix.Prelude.{String}
use wasmatrix.Core.Types.{ProviderType, CoreError, invalid_capability_assignment}

pub record ProviderMetadata : Type 0 where
  pub provider_id : String
  pub provider_type : ProviderType
  pub version : String

-- every failure of a provider on its parameters or permissions
abbrev pub refused : String → CoreError
refused message = invalid_capability_assignment message
