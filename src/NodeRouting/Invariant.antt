-- ===== src/NodeRouting/Invariant.antt =====
-- What every operation of the node routing service keeps of the repository and the etcd store.
use wasmatrix.Prelude.{
  ℕ, ◌+◌, min, ℤ, String, true, false, List, [], ◌∷◌, Option, none, some, ok, ◌≡◌, refl, arith,
  eq_iff, is_empty, Bool, ◌||◌, starts_with, is_some, if◌then◌else◌, Result-cases, Option-cases,
  Bool-cases, inl, inr,
}
use wasmatrix.HashMap
use wasmatrix.HashMap.{get-insert, get-empty}
use wasmatrix.Core.Types.{DateTime, StartInstanceRequest}
use wasmatrix.ControlPlane.{ControlPlane, restore_instance_state}
use wasmatrix.Proto.V1
use wasmatrix.NodeRouting.Repository.{
  NodeAgentRecord, Repository, get_node, list_nodes, set_availability, set_available, set_count,
  count_up, count_down, assign_instance, remove_instance_assignment, u32_max, set_active_instances,
}
use wasmatrix.NodeRouting.Repository.Changes.{
  IsRouted, AllKnown, change_node-IsRouted, assign_instance-IsRouted,
  remove_instance_assignment-IsRouted, change_node-AllKnown,
}
use wasmatrix.NodeRouting.Selection.{select_candidate_nodes}
use wasmatrix.NodeRouting.Etcd.{EtcdMetadataRepository, classify_key, put_limited_metadata}
use wasmatrix.NodeRouting.Service.{
  Client, route_start_instance, try_nodes, accept_start, start_request_to,
}
use wasmatrix.NodeRouting.Service.Start.{
  taken, unreachable, refused, try_nodes-Round, select_candidate_nodes-AllKnown, counted,
  accept_start-accepted,
}
use wasmatrix.NodeRouting.Requests.{route_stop_instance, ask_stop, list_from}
use wasmatrix.NodeRouting.Recovery.{
  read_metadata, is_active, apply_from, apply_recovered_instances, ask_instances,
  recover_node_state,
}

abbrev pub is_limited_key : String → Bool
is_limited_key key = starts_with key "/wasmatrix/nodes/" || starts_with key "/wasmatrix/providers/"

is_limited_key-classify_key : (key : String) → is_limited_key key ≡ is_some (classify_key key)
unfolding classify_key
is_limited_key-classify_key key = ground arith

-- every key of the etcd store begins like the key of a node or of a provider
abbrev pub IsLimited : EtcdMetadataRepository → Type 0
IsLimited etcd =
    (key : String) → HashMap.contains_key etcd.storage key ≡ true → is_limited_key key ≡ true

pub put_limited_metadata-IsLimited :
    (etcd : EtcdMetadataRepository) (key value : String)
    → IsLimited etcd
    → IsLimited (put_limited_metadata etcd key value).1
unfolding put_limited_metadata
put_limited_metadata-IsLimited etcd key value v = elim (Option-cases (classify_key key)) [
  | inl e ↦ rw (put_limited_metadata, e) v
  | inr (kind, e) ↦
      rw (put_limited_metadata, e)
        (λ k h. ground (
          arith,
          v k,
          h,
          get-insert etcd.storage key k value,
          eq_iff key k,
          e,
          is_limited_key-classify_key key,
        ))
]

abbrev pub IsLimitedStore : Option EtcdMetadataRepository → Type 0
IsLimitedStore none = Unit
IsLimitedStore (some etcd) = IsLimited etcd

accept_start-IsRouted :
    (r : Repository) (instance_id : String) (node : NodeAgentRecord)
    → IsRouted r
    → HashMap.contains_key r.nodes node.node_id ≡ true
    → IsRouted (accept_start r instance_id node.node_id).1
accept_start-IsRouted r instance_id node v known =
    let assigned = assign_instance-IsRouted r v instance_id node.node_id known in
    let counted' =
      change_node-IsRouted (assign_instance r instance_id node.node_id) assigned count_up
        node.node_id (λ n. refl) in
    rw (accept_start-accepted r instance_id node known) (
      change_node-IsRouted (counted r instance_id node) counted' (set_available true) node.node_id
        (λ n. refl))

try_nodes-IsRouted :
    (client : Client) (instance_id : String) (request : V1.StartInstanceRequest)
    (nodes : List NodeAgentRecord) (r : Repository) (errors : List String)
    → IsRouted r
    → AllKnown r nodes
    → IsRouted (try_nodes client instance_id request nodes r errors).1
unfolding try_nodes
try_nodes-IsRouted client instance_id request [] r errors v known = v
try_nodes-IsRouted client instance_id request (node ∷ nodes) r errors v known =
    let marked = (set_availability r node.node_id false).1 in
    let still_known = change_node-AllKnown (set_available false) r node.node_id nodes known.1 in
    elim (try_nodes-Round client instance_id request node nodes r errors) [
      | taken good e ↦ rw e (accept_start-IsRouted r instance_id node v known.0)
      | unreachable bad more e ↦ rw e (
          try_nodes-IsRouted client instance_id request nodes marked more
            (change_node-IsRouted r v (set_available false) node.node_id (λ n. refl)) still_known)
      | refused bad more e ↦
          rw e (try_nodes-IsRouted client instance_id request nodes r more v known.1)
    ]

pub route_start_instance-IsRouted :
    (client : Client) (g : V1.Generated) (uuid : String) (r : Repository)
    (request : StartInstanceRequest)
    → IsRouted r
    → IsRouted (route_start_instance client g uuid r request).1
unfolding route_start_instance
route_start_instance-IsRouted client g uuid r request v =
    elim (Bool-cases (is_empty (select_candidate_nodes (list_nodes r) request))) [
      | inl e ↦ rw (route_start_instance, e) v
      | inr e ↦
          rw (route_start_instance, e)
            (try_nodes-IsRouted client uuid (start_request_to g uuid request)
              (select_candidate_nodes (list_nodes r) request) r [] v
              (select_candidate_nodes-AllKnown r request v))
    ]

pub route_stop_instance-IsRouted :
    (client : Client) (r : Repository) (instance_id : String)
    → IsRouted r
    → IsRouted (route_stop_instance client r instance_id).1
unfolding route_stop_instance
route_stop_instance-IsRouted client r instance_id v =
    elim (Result-cases (ask_stop client r instance_id)) [
      | inr (x, p) ↦ rw (route_stop_instance, p) v
      | inl (node_id, p) ↦
          rw (route_stop_instance, p)
            (change_node-IsRouted (remove_instance_assignment r instance_id).1
              (remove_instance_assignment-IsRouted r v instance_id) count_down node_id (λ n. refl))
    ]

pub list_from-IsRouted :
    (client : Client) (g : V1.Generated) (unix_to_utc : ℤ → Option DateTime)
    (nodes : List NodeAgentRecord) (r : Repository)
    → IsRouted r
    → IsRouted (list_from client g unix_to_utc nodes r).1
unfolding list_from
list_from-IsRouted client g unix_to_utc [] r v = v
list_from-IsRouted client g unix_to_utc (node ∷ nodes) r v =
    let skipped =
      list_from-IsRouted client g unix_to_utc nodes (set_availability r node.node_id false).1
        (change_node-IsRouted r v (set_available false) node.node_id (λ n. refl)) in
    let kept = list_from-IsRouted client g unix_to_utc nodes r v in
    elim (Result-cases (client.connect node.node_address)) [
      | inr (x, p) ↦ rw (list_from, p) skipped
      | inl (u, p) ↦ elim (Result-cases (client.list_instances node.node_address (record {}))) [
        | inr (x, q) ↦ rw (list_from, p, q) skipped
        | inl (response, q) ↦ elim (Bool-cases response.success) [
          | inl s ↦ rw (list_from, p, q, s) kept
          | inr s ↦ rw (list_from, p, q, s) kept
        ]
      ]
    ]

apply_from-IsRouted :
    (g : V1.Generated) (unix_to_utc : ℤ → Option DateTime) (node_id : String)
    (reported : List V1.InstanceMetadata) (recovered active_count : ℕ) (cp : ControlPlane)
    (r : Repository)
    → IsRouted r
    → HashMap.contains_key r.nodes node_id ≡ true
    → IsRouted (apply_from g unix_to_utc node_id reported recovered active_count (cp, r)).1.1
unfolding apply_from
apply_from-IsRouted g unix_to_utc node_id [] recovered active_count cp r v known =
    let counted' = change_node-IsRouted r v (set_count active_count) node_id (λ n. refl) in
    elim (Result-cases (set_active_instances r node_id active_count).0) [
      | inl (u, p) ↦ rw (apply_from, p) counted'
      | inr (x, p) ↦ rw (apply_from, p) counted'
    ]
apply_from-IsRouted g unix_to_utc node_id (report ∷ reported) recovered active_count cp r v known =
    elim (Result-cases (read_metadata g unix_to_utc report)) [
      | inr (x, p) ↦ rw (apply_from, p) v
      | inl (meta, p) ↦
          rw (apply_from, p)
            (apply_from-IsRouted g unix_to_utc node_id reported (recovered + 1)
              (if is_active meta.status then min (active_count + 1) u32_max else active_count)
              (restore_instance_state cp meta []) (assign_instance r meta.instance_id node_id)
              (assign_instance-IsRouted r v meta.instance_id node_id known)
              (unfold assign_instance in known))
    ]

ask_instances-known :
    (client : Client) (r : Repository) (node_id : String) (l : List V1.InstanceMetadata)
    → ask_instances client r node_id ≡ ok l
    → HashMap.contains_key r.nodes node_id ≡ true
unfolding ask_instances
ask_instances-known client r node_id l e = elim (Option-cases (get_node r node_id)) [
  | inl p ↦ ground (arith, p, e)
  | inr (n, p) ↦ ground (arith, p)
]

pub recover_node_state-IsRouted :
    (client : Client) (g : V1.Generated) (unix_to_utc : ℤ → Option DateTime) (node_id : String)
    (cp : ControlPlane) (r : Repository)
    → IsRouted r
    → IsRouted (recover_node_state client g unix_to_utc node_id (cp, r)).1.1
unfolding recover_node_state apply_recovered_instances
recover_node_state-IsRouted client g unix_to_utc node_id cp r v =
    elim (Result-cases (ask_instances client r node_id)) [
      | inr (x, p) ↦ rw (recover_node_state, p) v
      | inl (l, p) ↦
          rw (recover_node_state, p)
            (apply_from-IsRouted g unix_to_utc node_id l 0 0 cp r v
              (ask_instances-known client r node_id l p))
    ]
