-- ===== src/Network/Recoveries.antt =====
-- What a recovery of a node takes from the server of its agent.
use wasmatrix.Prelude.{
  ℕ, ℤ, pos, String, Bool, true, ◌≡◌, refl, arith, Option, none, some, List, [], ◌∷◌, map, Result,
  ok, ◌==◌, eq_iff, if◌then◌else◌, any, collect, count, length, is_some, min,
}
use wasmatrix.HashMap
use wasmatrix.HashMap.{HashMap}
use wasmatrix.Core.Types.{DateTime, InstanceMetadata, running}
use wasmatrix.ControlPlane.{ControlPlane}
use wasmatrix.Proto.V1
use wasmatrix.Proto.Protocol
use wasmatrix.Proto.CoreTypes.{instance_status_of_core}
use wasmatrix.Proto.Conversion.Parts.{instance_metadata_to_v1}
use wasmatrix.Shared.{ControlPlaneResult}
use wasmatrix.NodeRouting.Repository.{
  NodeAgentRecord, Repository, get_node, lookup_instance_node, u32_max,
}
use wasmatrix.NodeRouting.Service.Start.{active}
use wasmatrix.NodeRouting.Service.{Client}
use wasmatrix.NodeRouting.Recovery.{
  read_metadata, apply_recovered_instances, ask_instances, recover_node_state,
}
use wasmatrix.NodeRouting.Recovery.Effects.{
  IsRecovered, names, last_reported, is_starting_or_running, apply_recovered_instances-IsRecovered,
}
use wasmatrix.Agent.Node.{Engine, NodeAgent, InstanceHandle, list_instances as listed}
use wasmatrix.Agent.Reporting.{ReportClient}
use wasmatrix.Agent.Server.{local_metadata, list_instances}
use wasmatrix.Network.{Servers, network_client}
use wasmatrix.Network.Queries.{read_status-core}

-- what the control plane keeps of an instance that an agent lists
abbrev pub told : DateTime → String → InstanceMetadata
told epoch instance_id = record {
  instance_id = instance_id;
  node_id = "local";
  module_hash = "unknown";
  created_at = epoch;
  status = running;
}

module _ (epoch : DateTime) where
  names-told :
      (ids : List String) (i : String) → names (map (told epoch) ids) i ≡ any ids (λ id. id == i)
  unfolding any
  names-told [] i = refl
  names-told (id ∷ ids) i = ground (arith, names-told ids i)

  count-told :
      (ids : List String)
      → count (λ m. is_starting_or_running m.status) (map (told epoch) ids) ≡ length ids
  count-told [] = refl
  count-told (id ∷ ids) = ground (arith, count-told ids)

  length-told : (ids : List String) → length (map (told epoch) ids) ≡ length ids
  length-told [] = refl
  length-told (id ∷ ids) = ground (arith, length-told ids)

  last_reported-told :
      (ids : List String) (i : String) (before : Option InstanceMetadata)
      → last_reported (map (told epoch) ids) i before
        ≡ (if any ids (λ id. id == i) then some (told epoch i) else before)
  unfolding any
  last_reported-told [] i before = refl
  last_reported-told (id ∷ ids) i before = ground (
    arith,
    last_reported-told ids i (if id == i then some (told epoch id) else before),
    eq_iff id i,
  )

any-keys {ℓ} :
    {V : Type ℓ} (l : List (String × V)) (i : String)
    → any (map (λ e. e.0) l) (λ k. k == i) ≡ is_some (HashMap.find i l)
unfolding any HashMap.find
any-keys [] i = refl
any-keys ((k, v) ∷ l) i = ground (arith, any-keys l i)

length-keys {ℓ} : {V : Type ℓ} (l : List (String × V)) → length (map (λ e. e.0) l) ≡ length l
length-keys [] = refl
length-keys ((k, v) ∷ l) = ground (arith, length-keys l)

listed-any :
    {engine : Engine} (agent : NodeAgent engine) (i : String)
    → any (listed engine agent) (λ id. id == i) ≡ HashMap.contains_key agent.instances i
unfolding listed HashMap.keys HashMap.get
listed-any agent i = any-keys agent.instances.entries i

length-listed :
    {engine : Engine} (agent : NodeAgent engine)
    → length (listed engine agent) ≡ HashMap.len agent.instances
unfolding listed HashMap.keys HashMap.len
length-listed agent = length-keys agent.instances.entries

module _ (g : V1.Generated) (law : V1.IsGenerated g) (unix_to_utc : ℤ → Option DateTime)
    (epoch : DateTime) (reads_epoch : unix_to_utc (pos 0) ≡ some epoch) where
  read_metadata-told :
      (id : String)
      → read_metadata g unix_to_utc (instance_metadata_to_v1 g (local_metadata id Protocol.running))
        ≡ ok (told epoch id)
  unfolding read_metadata instance_metadata_to_v1 instance_status_of_core
  read_metadata-told id =
      let status = read_status-core g law running in
      rw (read_metadata, instance_metadata_to_v1, status, reads_epoch) refl

  collect-told :
      (ids : List String)
      → collect
          (read_metadata g unix_to_utc)
          (map (λ id. instance_metadata_to_v1 g (local_metadata id Protocol.running)) ids)
        ≡ ok (map (told epoch) ids)
  unfolding collect
  collect-told [] = refl
  collect-told (id ∷ ids) = rw (read_metadata-told id, collect-told ids) refl

  module _ {engine : Engine} {reports : ReportClient} (timestamp : ℤ) (now : DateTime)
      (invoke : String → V1.InvokeCapabilityRequest → Result V1.InvokeCapabilityResponse String)
      (reachable : String → Bool) (servers : Servers engine reports) (cp : ControlPlane)
      (r : Repository) (node_id : String) (node : NodeAgentRecord)
      (known : get_node r node_id ≡ some node) (up : reachable node.node_address ≡ true) where
    abbrev pub client : Client
    client = network_client g timestamp now invoke reachable servers

    abbrev pub instances : HashMap (InstanceHandle engine)
    instances = (servers node.node_address).agent.instances

    abbrev pub IsTold : ControlPlaneResult ℕ × (ControlPlane × Repository) → Type 0
    IsTold outcome =
        (outcome.0 ≡ ok (HashMap.len instances))
        × ((i : String)
            → lookup_instance_node outcome.1.1 i ≡ (
                if HashMap.contains_key instances i
                then some node_id
                else lookup_instance_node r i))
        × (active outcome.1.1 node_id ≡ some (min (HashMap.len instances) u32_max))
        × ((i : String)
            → HashMap.get outcome.1.0.instances i ≡ (
                if HashMap.contains_key instances i
                then some (told epoch i)
                else HashMap.get cp.instances i))
        × ((i : String)
            → HashMap.get outcome.1.0.capabilities i
              ≡ (if HashMap.contains_key instances i then none else HashMap.get cp.capabilities i))

    abbrev pub ids : List String
    ids = listed engine (servers node.node_address).agent

    told-IsTold :
        (outcome : ControlPlaneResult ℕ × (ControlPlane × Repository))
        → IsRecovered node_id (map (told epoch) ids) 0 0 (cp, r) outcome
        → IsTold outcome
    told-IsTold outcome (counted, placed, running_there, granted, known_there, _, _) =
        let agent = (servers node.node_address).agent in
        (
          ground (arith, counted, length-told epoch ids, length-listed agent),
          λ i. ground (arith, placed i, names-told epoch ids i, listed-any agent i),
          ground (arith, running_there, count-told epoch ids, length-listed agent),
          λ i. ground (
            arith,
            known_there i,
            last_reported-told epoch ids i (HashMap.get cp.instances i),
            listed-any agent i,
          ),
          λ i. ground (arith, granted i, names-told epoch ids i, listed-any agent i),
        )

    node_is_known : HashMap.contains_key r.nodes node_id ≡ true
    node_is_known = ground (arith, known)

    -- A recovery of a known node that can be reached counts the instances that the agent there runs.
    -- The control plane then holds each of them as running on the node "local", even if the agent
    -- has marked it as crashed, with an unknown module and no capability assignment; the routing
    -- assigns it to the node and counts all of them as active, up to the largest `u32`. Other
    -- instances keep their metadata, their assignments and their node.
    pub recover_node_state-network :
        IsTold (recover_node_state client g unix_to_utc node_id (cp, r))
    unfolding recover_node_state ask_instances list_instances
    recover_node_state-network =
        let reported =
          map (λ id. instance_metadata_to_v1 g (local_metadata id Protocol.running)) ids in
        rw (recover_node_state, ask_instances, known, up, list_instances)
          (told-IsTold (apply_recovered_instances g unix_to_utc node_id reported (cp, r)) (
            apply_recovered_instances-IsRecovered g unix_to_utc node_id reported
              (map (told epoch) ids) cp r node_is_known (collect-told ids)))
