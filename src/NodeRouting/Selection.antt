-- ===== src/NodeRouting/Selection.antt =====
-- The choice of the nodes that are asked to start an instance, the free functions of
-- crates/wasmatrix-control-plane/src/features/node_routing/service/mod.rs.
pub mod Order
use Prim.Native.String
use Prim.Native.Nat.{Ordering}
use wasmatrix.Prelude.{
  ℕ, String, Bool, true, false, List, [], ◌∷◌, ◌==◌, ◌&&◌, ◌||◌, map, is_empty, all, any, retain,
  ltb, leb, eqb, if◌then◌else◌, starts_with, ◌<>◌, sort_by,
}
use wasmatrix.Core.Types.{
  ProviderType, kv, http, messaging, CapabilityAssignment, StartInstanceRequest,
}
use wasmatrix.NodeRouting.Repository.{NodeAgentRecord}

abbrev pub can_accept_instance : NodeAgentRecord → Bool
can_accept_instance node =
    node.available && (eqb node.max_instances 0 || ltb node.active_instances node.max_instances)

abbrev pub provider_type_to_string : ProviderType → String
provider_type_to_string kv = "kv"
provider_type_to_string http = "http"
provider_type_to_string messaging = "messaging"

-- the order of texts
abbrev pub text_leb : String → String → Bool
text_leb s t = elim (String.compare s t) [ Ordering.gt ↦ false | _ ↦ true ]

abbrev pub drop_equal : String → List String → List String
drop_equal s [] = []
drop_equal s (t ∷ ts) = if s == t then ts else t ∷ ts

-- `Vec::dedup`: of equal neighbours the first stays
unfoldable pub dedup : List String → List String
dedup [] = []
dedup (s ∷ ss) = let rest = dedup ss in s ∷ drop_equal s rest

unfoldable pub required_provider_types : StartInstanceRequest → List String
required_provider_types request = dedup (
    sort_by text_leb (
      map (λ (cap : CapabilityAssignment). provider_type_to_string cap.provider_type)
        request.capabilities))

unfoldable pub node_supports_required_providers : NodeAgentRecord → StartInstanceRequest → Bool
unfolding all any
node_supports_required_providers node request =
    let required = required_provider_types request in
    if is_empty required || is_empty node.capabilities
    then true
    else all required (λ provider. any node.capabilities (λ cap. cap == provider))

unfoldable pub select_candidate_nodes :
    List NodeAgentRecord → StartInstanceRequest → List NodeAgentRecord
unfolding retain
select_candidate_nodes nodes request =
    sort_by (λ m n. leb m.active_instances n.active_instances)
      (retain (λ node. can_accept_instance node && node_supports_required_providers node request)
        nodes)

unfoldable pub normalize_endpoint : String → String
normalize_endpoint address =
    if starts_with address "http://" || starts_with address "https://"
    then address
    else "http://" <> address
