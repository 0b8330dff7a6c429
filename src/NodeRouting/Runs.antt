-- ===== src/NodeRouting/Runs.antt =====
-- Sequences of calls of the node routing service, and what holds after all of them.
use wasmatrix.Prelude.{
  ℕ, ℤ, String, Bool, true, false, List, [], ◌∷◌, Option, none, some, Result, refl, arith,
  if◌then◌else◌, Result-cases, Option-cases, inl, inr,
}
use wasmatrix.HashMap.{get-empty}
use wasmatrix.Core.Types.{DateTime, StartInstanceRequest}
use wasmatrix.ControlPlane
use wasmatrix.ControlPlane.{ControlPlane, restore_instance_state}
use wasmatrix.Proto.V1
use wasmatrix.NodeRouting.Repository.{
  Repository, new_repository, list_nodes, set_heartbeat, update_heartbeat,
}
use wasmatrix.NodeRouting.Repository.Changes.{
  IsRouted, new_repository-IsRouted, upsert_node-IsRouted, change_node-IsRouted,
  upsert_provider_metadata-IsRouted,
}
use wasmatrix.NodeRouting.Etcd.{
  EtcdMetadataRepository, new_etcd, put_node_presence, put_provider_metadata,
}
use wasmatrix.NodeRouting.Service.{
  Client, NodeRoutingService, with_etcd, register_node, register_provider_metadata,
  record_status_report, route_start_instance,
}
use wasmatrix.NodeRouting.Requests.{route_stop_instance, route_list_instances}
use wasmatrix.NodeRouting.Invariant.{
  IsLimited, IsLimitedStore, put_limited_metadata-IsLimited, route_start_instance-IsRouted,
  route_stop_instance-IsRouted, list_from-IsRouted, recover_node_state-IsRouted,
}
use wasmatrix.NodeRouting.Recovery.{recover_node_state}

pub data Call : Type 0 where
  registers : String → String → List String → ℕ → Call
  provides : String → String → String → Call
  reports : String → ℤ → Call
  starts : Client → String → StartInstanceRequest → Call
  stops : Client → String → Call
  lists : Client → Call
  recovers : Client → String → Call

pub record State : Type 0 where
  pub cp : ControlPlane
  pub service : NodeRoutingService

pub record IsSound (service : NodeRoutingService) : Type 0 where
  pub routed : IsRouted service.repo
  pub limited : IsLimitedStore service.etcd_metadata_repo

abbrev pub new_state : String → Bool → State
new_state node_id with_store = record {
  cp = ControlPlane.new node_id;
  service = record {
    repo = new_repository;
    etcd_metadata_repo = if with_store then some new_etcd else none;
  };
}

module _ (g : V1.Generated) (to_rfc3339 : DateTime → String)
    (unix_to_utc : ℤ → Option DateTime) where
  unfoldable pub step : State → DateTime × Call → State
  step s (now, registers node_id address capabilities max_instances) = record s {
    service = (register_node to_rfc3339 now s.service node_id address capabilities max_instances).1;
  }
  step s (now, provides provider_id provider_type node_id) = record s {
    service =
        (register_provider_metadata to_rfc3339 now s.service provider_id provider_type node_id).1;
  }
  step s (now, reports node_id timestamp) = record s {
    service = record s.service {
      repo = (record_status_report unix_to_utc s.service.repo node_id timestamp).1;
    };
  }
  step s (now, starts client uuid request) = record s {
    service = record s.service {
      repo = (route_start_instance client g uuid s.service.repo request).1;
    };
  }
  step s (now, stops client instance_id) = record s {
    service = record s.service { repo = (route_stop_instance client s.service.repo instance_id).1 };
  }
  step s (now, lists client) = record s {
    service = record s.service {
      repo = (route_list_instances client g unix_to_utc s.service.repo).1;
    };
  }
  step s (now, recovers client node_id) =
      let (cp, repo) = (recover_node_state client g unix_to_utc node_id (s.cp, s.service.repo)).1 in
      record { cp = cp; service = record s.service { repo = repo } }

  unfoldable pub run : State → List (DateTime × Call) → State
  run s [] = s
  run s (c ∷ cs) = run (step s c) cs

  stored-IsSound :
      (repo : Repository) (store : Option EtcdMetadataRepository)
      (put : EtcdMetadataRepository → Result (Unit {0}) String × EtcdMetadataRepository)
      → ((etcd : EtcdMetadataRepository) → IsLimited etcd → IsLimited (put etcd).1)
      → IsSound (record { repo = repo; etcd_metadata_repo = store })
      → IsSound (with_etcd (record { repo = repo; etcd_metadata_repo = store }) put).1
  stored-IsSound repo none put keeps v = v
  stored-IsSound repo (some etcd) put keeps v =
      let after : IsSound (record { repo = repo; etcd_metadata_repo = some (put etcd).1 }) =
        record { routed = v.routed; limited = keeps etcd v.limited } in
      elim (Result-cases (put etcd).0) [
        | inl (u, p) ↦ rw (with_etcd, p) after
        | inr (x, p) ↦ rw (with_etcd, p) after
      ]

  with_etcd-IsSound :
      (service : NodeRoutingService)
      (put : EtcdMetadataRepository → Result (Unit {0}) String × EtcdMetadataRepository)
      → ((etcd : EtcdMetadataRepository) → IsLimited etcd → IsLimited (put etcd).1)
      → IsSound service
      → IsSound (with_etcd service put).1
  with_etcd-IsSound service put keeps v =
      stored-IsSound service.repo service.etcd_metadata_repo put keeps v

  step-IsSound :
      (s : State) (now : DateTime) (call : Call)
      → IsSound s.service
      → IsSound (step s (now, call)).service
  unfolding step register_node register_provider_metadata record_status_report put_node_presence
      put_provider_metadata route_list_instances
  step-IsSound s now (registers node_id address capabilities max_instances) v =
      with_etcd-IsSound _ _ (λ etcd. put_limited_metadata-IsLimited etcd _ _)
        (record { routed = upsert_node-IsRouted s.service.repo v.routed _; limited = v.limited })
  step-IsSound s now (provides provider_id provider_type node_id) v =
      with_etcd-IsSound _ _ (λ etcd. put_limited_metadata-IsLimited etcd _ _)
        (record {
          routed = upsert_provider_metadata-IsRouted s.service.repo v.routed _;
          limited = v.limited;
        })
  step-IsSound s now (reports node_id timestamp) v = elim (Option-cases (unix_to_utc timestamp)) [
    | inl e ↦ rw (record_status_report, e) v
    | inr (heartbeat, e) ↦
        let beaten : IsSound
            (record s.service { repo = (update_heartbeat s.service.repo node_id heartbeat).1 }) =
          record {
            routed =
                change_node-IsRouted s.service.repo v.routed (set_heartbeat heartbeat) node_id
                  (λ n. refl);
            limited = v.limited;
          } in
        rw (record_status_report, e) beaten
  ]
  step-IsSound s now (starts client uuid request) v = record {
    routed = route_start_instance-IsRouted client g uuid s.service.repo request v.routed;
    limited = v.limited;
  }
  step-IsSound s now (stops client instance_id) v = record {
    routed = route_stop_instance-IsRouted client s.service.repo instance_id v.routed;
    limited = v.limited;
  }
  step-IsSound s now (lists client) v = record {
    routed =
        list_from-IsRouted client g unix_to_utc (list_nodes s.service.repo) s.service.repo v.routed;
    limited = v.limited;
  }
  step-IsSound s now (recovers client node_id) v = record {
    routed = recover_node_state-IsRouted client g unix_to_utc node_id s.cp s.service.repo v.routed;
    limited = v.limited;
  }

  run_from-IsSound :
      (s : State) (calls : List (DateTime × Call))
      → IsSound s.service
      → IsSound (run s calls).service
  unfolding run
  run_from-IsSound s [] v = v
  run_from-IsSound s ((now, call) ∷ calls) v =
      run_from-IsSound (step s (now, call)) calls (step-IsSound s now call v)

  new_state-IsSound :
      (node_id : String) (with_store : Bool) → IsSound (new_state node_id with_store).service
  new_state-IsSound node_id true = record {
    routed = new_repository-IsRouted;
    limited = λ key h. ground (arith, get-empty {V = String} key, h);
  }
  new_state-IsSound node_id false = record { routed = new_repository-IsRouted; limited = tt }

  -- After any calls on a new routing service, with or without the etcd store and whatever the node
  -- agents answer, nodes stand under their own identifiers, every assigned instance is on a known
  -- node, and every key of the store begins with "/wasmatrix/nodes/" or "/wasmatrix/providers/".
  pub routing_run-IsSound :
      (node_id : String) (with_store : Bool) (calls : List (DateTime × Call))
      → IsSound (run (new_state node_id with_store) calls).service
  routing_run-IsSound node_id with_store calls =
      run_from-IsSound (new_state node_id with_store) calls (new_state-IsSound node_id with_store)
