-- ===== src/NodeRouting/Service/Start.antt =====
-- Which node a start reaches, and what it changes in the repository.
use wasmatrix.Prelude.{
  ℕ, ◌+◌, min, String, Bool, true, false, List, [], ◌∷◌, ◌++◌, Option, none, some, ok, err,
  value_of, ◌≡◌, refl, arith, ◌==◌, if◌then◌else◌, is_empty, format, find_first, find_first-cons,
  Result-cases, Bool-cases, inl, inr, All-retain, All-sort_by,
}
use mathlib.Core.Option
use wasmatrix.HashMap
use wasmatrix.HashMap.{get-insert}
use wasmatrix.Core.Types.{StartInstanceRequest}
use wasmatrix.Proto.V1
use wasmatrix.Shared.{ControlPlaneResult, resource_exhausted}
use wasmatrix.NodeRouting.Repository.{
  NodeAgentRecord, Repository, get_node, list_nodes, lookup_instance_node, set_availability,
  assign_instance, increment_active_instances, count_up, set_available, u32_max,
}
use wasmatrix.NodeRouting.Repository.Changes.{
  IsRouted, AllKnown, change_node-get, change_node-is_ok, change_node-assignments,
  change_node-AllKnown, list_nodes-AllKnown,
}
use wasmatrix.NodeRouting.Selection.{select_candidate_nodes}
use wasmatrix.NodeRouting.Service.{
  Client, start_request_to, accept_start, try_nodes, route_start_instance,
}

-- the node's agent can be reached and answers that it started the instance
abbrev pub accepts : Client → V1.StartInstanceRequest → NodeAgentRecord → Bool
accepts client request node = elim (client.connect node.node_address) [
  | err e ↦ false
  | ok _ ↦ elim (client.start_instance node.node_address request) [
    | err e ↦ false
    | ok response ↦ response.success
  ]
]

abbrev pub active : Repository → String → Option ℕ
active r j = Option.map (λ (n : NodeAgentRecord). n.active_instances) (get_node r j)

-- where an instance is, and how many a node has, after the node found accepted the start
abbrev pub placed_at : Option NodeAgentRecord → String → Repository → String → Option String
placed_at none instance_id r i = lookup_instance_node r i
placed_at (some n) instance_id r i =
    if instance_id == i then some n.node_id else lookup_instance_node r i

abbrev pub active_at : Option NodeAgentRecord → Repository → String → Option ℕ
active_at none r j = active r j
active_at (some n) r j =
    if n.node_id == j then Option.map (λ c. min (c + 1) u32_max) (active r j) else active r j

-- the outcome of a start that the node found, if any, accepted
abbrev pub IsStarted :
    Repository → String → Option NodeAgentRecord → ControlPlaneResult String × Repository → Type 0
IsStarted r instance_id found outcome =
    (value_of outcome.0 ≡ Option.map (λ _. instance_id) found)
    × ((i : String) → lookup_instance_node outcome.1 i ≡ placed_at found instance_id r i)
    × ((j : String) → active outcome.1 j ≡ active_at found r j)

module _ (r : Repository) (instance_id : String) (node : NodeAgentRecord) where
  abbrev pub counted : Repository
  counted = (increment_active_instances (assign_instance r instance_id node.node_id) node.node_id).1

  abbrev pub accepted : Repository
  accepted = (set_availability counted node.node_id true).1

  pub accept_start-accepted :
      HashMap.contains_key r.nodes node.node_id ≡ true
      → accept_start r instance_id node.node_id ≡ (ok instance_id, accepted)
  unfolding accept_start assign_instance
  accept_start-accepted known = ground (
    arith,
    known,
    change_node-is_ok count_up (assign_instance r instance_id node.node_id) node.node_id,
    change_node-is_ok (set_available true) counted node.node_id,
    change_node-get count_up (assign_instance r instance_id node.node_id) node.node_id node.node_id,
  )

  accepted-IsStarted : IsStarted r instance_id (some node) (ok instance_id, accepted)
  unfolding assign_instance
  accepted-IsStarted = (
    refl,
    λ i. ground (
      arith,
      change_node-assignments (set_available true) counted node.node_id,
      change_node-assignments count_up (assign_instance r instance_id node.node_id) node.node_id,
      get-insert r.assignments instance_id i node.node_id,
    ),
    λ j. ground (
      arith,
      change_node-get (set_available true) counted node.node_id j,
      change_node-get count_up (assign_instance r instance_id node.node_id) node.node_id j,
    ),
  )

  accept_start-IsStarted :
      HashMap.contains_key r.nodes node.node_id ≡ true
      → IsStarted r instance_id (some node) (accept_start r instance_id node.node_id)
  accept_start-IsStarted known = rw (accept_start-accepted known) accepted-IsStarted

-- marking a node as unavailable keeps assignments and counts
mark-keeps :
    (r : Repository) (node_id : String) (available : Bool) (instance_id : String)
    (found : Option NodeAgentRecord) (outcome : ControlPlaneResult String × Repository)
    → IsStarted (set_availability r node_id available).1 instance_id found outcome
    → IsStarted r instance_id found outcome
mark-keeps r node_id available instance_id found outcome s = (
  s.0,
  λ i. ground (arith, s.1 i, change_node-assignments (set_available available) r node_id),
  λ j. ground (arith, s.2 j, change_node-get (set_available available) r node_id j),
)

-- one round of the loop: the node accepts, is unreachable, or refuses
pub data Round (client : Client) (instance_id : String) (request : V1.StartInstanceRequest)
    (node : NodeAgentRecord) (nodes : List NodeAgentRecord) (r : Repository) (errors : List String)
    : Type 0 where
  taken :
      accepts client request node ≡ true
      → try_nodes client instance_id request (node ∷ nodes) r errors
        ≡ accept_start r instance_id node.node_id
      → Round client instance_id request node nodes r errors
  unreachable :
      accepts client request node ≡ false
      → (more : List String)
      → try_nodes client instance_id request (node ∷ nodes) r errors
        ≡ try_nodes client instance_id request nodes (set_availability r node.node_id false).1 more
      → Round client instance_id request node nodes r errors
  refused :
      accepts client request node ≡ false
      → (more : List String)
      → try_nodes client instance_id request (node ∷ nodes) r errors
        ≡ try_nodes client instance_id request nodes r more
      → Round client instance_id request node nodes r errors

pub try_nodes-Round :
    (client : Client) (instance_id : String) (request : V1.StartInstanceRequest)
    (node : NodeAgentRecord) (nodes : List NodeAgentRecord) (r : Repository) (errors : List String)
    → Round client instance_id request node nodes r errors
unfolding try_nodes
try_nodes-Round client instance_id request node nodes r errors =
    let noted = λ (e : String). errors ++ (format (node.node_id ∷ ": " ∷ e ∷ []) ∷ []) in
    elim (Result-cases (client.connect node.node_address)) [
      | inr (e, p) ↦ unreachable (ground (arith, p)) (noted e) (rw (try_nodes, p))
      | inl (u, p) ↦ elim (Result-cases (client.start_instance node.node_address request)) [
        | inr (e, q) ↦ unreachable (ground (arith, p, q)) (noted e) (rw (try_nodes, p, q))
        | inl (response, q) ↦ elim (Bool-cases response.success) [
          | inl good ↦ taken (ground (arith, p, q, good)) (rw (try_nodes, p, q, good))
          | inr bad ↦
              refused (ground (arith, p, q, bad)) (noted response.message)
                (rw (try_nodes, p, q, bad))
        ]
      ]
    ]

try_nodes-IsStarted :
    (client : Client) (instance_id : String) (request : V1.StartInstanceRequest)
    (nodes : List NodeAgentRecord) (r : Repository) (errors : List String)
    → AllKnown r nodes
    → IsStarted r instance_id
        (find_first (accepts client request) nodes)
        (try_nodes client instance_id request nodes r errors)
unfolding try_nodes
try_nodes-IsStarted client instance_id request [] r errors known =
    unfold find_first in (refl, λ i. refl, λ j. refl)
try_nodes-IsStarted client instance_id request (node ∷ nodes) r errors known =
    let marked = (set_availability r node.node_id false).1 in
    let still_known = change_node-AllKnown (set_available false) r node.node_id nodes known.1 in
    let first = find_first-cons (accepts client request) node nodes in
    elim (try_nodes-Round client instance_id request node nodes r errors) [
      | taken good e ↦ rw (e, first, good) (accept_start-IsStarted r instance_id node known.0)
      | unreachable bad more e ↦
          rw (e, first, bad)
            (mark-keeps r node.node_id false instance_id (find_first (accepts client request) nodes)
              (try_nodes client instance_id request nodes marked more)
              (try_nodes-IsStarted client instance_id request nodes marked more still_known))
      | refused bad more e ↦
          rw (e, first, bad) (try_nodes-IsStarted client instance_id request nodes r more known.1)
    ]

pub select_candidate_nodes-AllKnown :
    (r : Repository) (request : StartInstanceRequest)
    → IsRouted r
    → AllKnown r (select_candidate_nodes (list_nodes r) request)
select_candidate_nodes-AllKnown r request v =
    unfold select_candidate_nodes in
    All-sort_by (λ (n : NodeAgentRecord). HashMap.contains_key r.nodes n.node_id ≡ true) _ _
      (All-retain (λ (n : NodeAgentRecord). HashMap.contains_key r.nodes n.node_id ≡ true) _
        (list_nodes r) (list_nodes-AllKnown r v))

-- A start on a repository that satisfies its invariant succeeds exactly if some candidate node can
-- be reached and accepts it. It then returns the fresh identifier, the instance is assigned to the
-- first such candidate, and that node has one more active instance, up to the largest `u32`;
-- otherwise nothing is assigned or counted. No other assignment or count changes.
pub route_start_instance-first :
    (client : Client) (g : V1.Generated) (uuid : String) (r : Repository)
    (request : StartInstanceRequest)
    → IsRouted r
    → IsStarted r uuid
        (find_first
          (accepts client (start_request_to g uuid request))
          (select_candidate_nodes (list_nodes r) request))
        (route_start_instance client g uuid r request)
unfolding route_start_instance find_first
route_start_instance-first client g uuid r request v =
    route-IsStarted client g uuid r request (select_candidate_nodes (list_nodes r) request)
      (select_candidate_nodes-AllKnown r request v)
  where
    route-IsStarted :
        (client : Client) (g : V1.Generated) (uuid : String) (r : Repository)
        (request : StartInstanceRequest) (candidates : List NodeAgentRecord)
        → AllKnown r candidates
        → IsStarted r uuid
            (find_first (accepts client (start_request_to g uuid request)) candidates)
            (if is_empty candidates
              then (err (resource_exhausted "No registered node agents"), r)
              else try_nodes client uuid (start_request_to g uuid request) candidates r [])
    route-IsStarted client g uuid r request [] known = (refl, λ i. refl, λ j. refl)
    route-IsStarted client g uuid r request (node ∷ nodes) known =
        try_nodes-IsStarted client uuid (start_request_to g uuid request) (node ∷ nodes) r [] known
