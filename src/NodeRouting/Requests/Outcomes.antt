-- ===== src/NodeRouting/Requests/Outcomes.antt =====
-- What a stop changes, and which capability invocations reach a node.
use wasmatrix.Prelude.{
  ◌-◌, String, Bool, true, false, err, sym, Option, none, some, ok, value_of, ◌≡◌, refl, arith,
  ◌==◌, eq_iff, if◌then◌else◌, find_first, Result-cases, Option-cases, Bool-cases, inl, inr,
}
use mathlib.Core.Option
use wasmatrix.HashMap
use wasmatrix.HashMap.{get-remove}
use wasmatrix.Core.Types.{CapabilityAssignment, has_permission}
use wasmatrix.Core.Capability.{required_permission}
use wasmatrix.Proto.V1
use wasmatrix.Shared.{ControlPlaneResult}
use wasmatrix.NodeRouting.Repository.{
  NodeAgentRecord, ProviderMetadata, Repository, get_node, list_provider_metadata,
  lookup_instance_node, remove_instance_assignment, decrement_active_instances, count_down,
}
use wasmatrix.NodeRouting.Repository.Changes.{
  change_node-get, change_node-is_ok, change_node-assignments,
}
use wasmatrix.NodeRouting.Selection.{provider_type_to_string}
use wasmatrix.NodeRouting.Service.{Client}
use wasmatrix.NodeRouting.Service.Start.{active}
use wasmatrix.NodeRouting.Requests.{
  reach_node, ask_stop, route_stop_instance, Json, authorize_invocation,
  route_capability_invocation,
}

reach_node-ok :
    (client : Client) (r : Repository) (i node_id : String) (node : NodeAgentRecord)
    → reach_node client r i ≡ ok (node_id, node)
    → (lookup_instance_node r i ≡ some node_id) × (get_node r node_id ≡ some node)
unfolding reach_node
reach_node-ok client r i node_id node e = ground (arith, e)

pub ask_stop-ok :
    (client : Client) (r : Repository) (i node_id : String)
    → ask_stop client r i ≡ ok node_id
    → (lookup_instance_node r i ≡ some node_id) × (HashMap.contains_key r.nodes node_id ≡ true)
unfolding ask_stop
ask_stop-ok client r i node_id e = elim (Result-cases (reach_node client r i)) [
  | inr (x, p) ↦ ground (arith, p, e)
  | inl ((id, node), p) ↦ ground (arith, p, e, reach_node-ok client r i id node p)
]

-- the node's agent can be reached and answers that it stopped the instance
abbrev pub confirms : Client → String → NodeAgentRecord → Bool
confirms client instance_id node = elim (client.connect node.node_address) [
  | err e ↦ false
  | ok _ ↦ elim (client.stop_instance node.node_address (record { instance_id = instance_id })) [
    | err e ↦ false
    | ok response ↦ response.success
  ]
]

-- the node of the instance, if it is known and its agent confirms the stop
abbrev pub confirmed : Client → Repository → String → Option String
confirmed client r instance_id = elim (lookup_instance_node r instance_id) [
  | none ↦ none
  | some node_id ↦ elim (get_node r node_id) [
    | none ↦ none
    | some node ↦ if confirms client instance_id node then some node_id else none
  ]
]

confirmed-ask_stop :
    (client : Client) (r : Repository) (instance_id : String)
    → value_of (ask_stop client r instance_id) ≡ confirmed client r instance_id
unfolding ask_stop reach_node
confirmed-ask_stop client r instance_id = ground arith

-- the outcome of a stop that the agent on the node found, if any, confirmed
abbrev pub IsStopped :
    Repository → String → Option String → ControlPlaneResult (Unit {0}) × Repository → Type 0
IsStopped r instance_id none outcome = (value_of outcome.0 ≡ none) × (outcome.1 ≡ r)
IsStopped r instance_id (some node_id) outcome =
    (value_of outcome.0 ≡ some tt)
    × ((i : String)
        → lookup_instance_node outcome.1 i
          ≡ (if instance_id == i then none else lookup_instance_node r i))
    × ((j : String)
        → active outcome.1 j
          ≡ (if node_id == j then Option.map (λ c. c - 1) (active r j) else active r j))

remove_instance_assignment-IsStopped :
    (r : Repository) (instance_id node_id : String)
    → HashMap.contains_key r.nodes node_id ≡ true
    → IsStopped r instance_id
        (some node_id)
        (decrement_active_instances (remove_instance_assignment r instance_id).1 node_id)
unfolding remove_instance_assignment
remove_instance_assignment-IsStopped r instance_id node_id known =
    let removed = (remove_instance_assignment r instance_id).1 in
    (
      ground (arith, change_node-is_ok count_down removed node_id, known),
      λ i. ground (
        arith,
        change_node-assignments count_down removed node_id,
        get-remove r.assignments instance_id i,
      ),
      λ j. ground (arith, change_node-get count_down removed node_id j),
    )

-- A stop succeeds exactly if the instance is assigned to a known node whose agent can be reached and
-- answers that it stopped the instance. The assignment is then removed and that node has one active
-- instance less; otherwise nothing changes.
pub route_stop_instance-exact :
    (client : Client) (r : Repository) (instance_id : String)
    → IsStopped r instance_id
        (confirmed client r instance_id)
        (route_stop_instance client r instance_id)
unfolding route_stop_instance
route_stop_instance-exact client r instance_id =
    let same = confirmed-ask_stop client r instance_id in
    elim (Result-cases (ask_stop client r instance_id)) [
      | inr (x, p) ↦ rw (sym same, route_stop_instance, p) (refl, refl)
      | inl (node_id, p) ↦
          rw (sym same, route_stop_instance, p)
            (remove_instance_assignment-IsStopped r instance_id node_id
              (ask_stop-ok client r instance_id node_id p).1)
    ]

-- the checks that an invocation has passed
pub record IsAuthorized (r : Repository) (instance_id : String) (assignment : CapabilityAssignment)
    (operation : String) (node : NodeAgentRecord) : Type 0 where
  pub own : assignment.instance_id ≡ instance_id
  pub home : String
  pub assigned : lookup_instance_node r instance_id ≡ some home
  pub required : String
  pub known_operation : required_permission assignment.provider_type operation ≡ some required
  pub permitted : has_permission assignment required ≡ true
  pub provider : ProviderMetadata
  pub registered :
      find_first (λ p. p.provider_id == assignment.capability_id) (list_provider_metadata r)
      ≡ some provider
  pub same_type : provider.provider_type ≡ provider_type_to_string assignment.provider_type
  pub node_known : get_node r provider.node_id ≡ some node

authorize_invocation-ok :
    (r : Repository) (instance_id : String) (assignment : CapabilityAssignment) (operation : String)
    (node : NodeAgentRecord)
    → authorize_invocation r instance_id assignment operation ≡ ok node
    → IsAuthorized r instance_id assignment operation node
unfolding authorize_invocation
authorize_invocation-ok r instance_id assignment operation node e =
    elim (Bool-cases (assignment.instance_id == instance_id)) [
      | inr p ↦ absurd (ground (arith, p, e))
      | inl p ↦ elim (Option-cases (lookup_instance_node r instance_id)) [
        | inl q ↦ absurd (ground (arith, p, q, e))
        | inr (home, q) ↦
            elim (Option-cases (required_permission assignment.provider_type operation)) [
              | inl s ↦ absurd (ground (arith, p, q, s, e))
              | inr (required, s) ↦ elim (Bool-cases (has_permission assignment required)) [
                | inr t ↦ absurd (ground (arith, p, q, s, t, e))
                | inl t ↦
                    let found =
                      find_first
                        (λ (x : ProviderMetadata). x.provider_id == assignment.capability_id)
                        (list_provider_metadata r) in
                    elim (Option-cases found) [
                      | inl u ↦ absurd (ground (arith, p, q, s, t, u, e))
                      | inr (provider, u) ↦ record {
                        own = ground (arith, p, eq_iff assignment.instance_id instance_id);
                        home = home;
                        assigned = q;
                        required = required;
                        known_operation = s;
                        permitted = t;
                        provider = provider;
                        registered = u;
                        same_type = ground (
                          arith,
                          p,
                          q,
                          s,
                          t,
                          u,
                          e,
                          eq_iff provider.provider_type
                              (provider_type_to_string assignment.provider_type),
                        );
                        node_known = ground (arith, p, q, s, t, u, e);
                      }
                    ]
              ]
            ]
      ]
    ]

-- An invocation that returns a result has passed every check: the assignment is the instance's own,
-- the instance is assigned, the operation is known and permitted by the assignment, the provider is
-- registered under the capability's name with the assignment's type, and its node is known.
pub route_capability_invocation-IsAuthorized :
    (client : Client) (g : V1.Generated) (json : Json) (r : Repository) (instance_id : String)
    (assignment : CapabilityAssignment) (operation : String) (params value : json.Value)
    → route_capability_invocation client g json r instance_id assignment operation params ≡ ok value
    → (node : NodeAgentRecord) × IsAuthorized r instance_id assignment operation node
unfolding route_capability_invocation
route_capability_invocation-IsAuthorized client g json r instance_id assignment operation params
      value e =
    elim (Result-cases (authorize_invocation r instance_id assignment operation)) [
      | inl (node, p) ↦ (node, authorize_invocation-ok r instance_id assignment operation node p)
      | inr (x, p) ↦ absurd (ground (arith, p, e))
    ]
