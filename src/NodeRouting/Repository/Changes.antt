-- ===== src/NodeRouting/Repository/Changes.antt =====
-- What a change of one node leaves, and the invariant of the repository.
use wasmatrix.Prelude.{
  String, true, List, [], ◌∷◌, Option, none, some, is_ok, ◌≡◌, arith, ◌==◌, eq_iff, if◌then◌else◌,
  All, Option-cases, Bool-cases, inl, inr,
}
use mathlib.Core.Option
use wasmatrix.HashMap
use wasmatrix.HashMap.{HashMap, get-insert, get-modify, get-remove, get-empty}
use wasmatrix.HashMap.Entries.{
  IsDistinct, empty-IsDistinct, insert-IsDistinct, modify-IsDistinct, values-All,
}
use wasmatrix.NodeRouting.Repository.{
  NodeAgentRecord, ProviderMetadata, Repository, new_repository, upsert_node,
  upsert_provider_metadata, change_node, get_node, list_nodes, assign_instance,
  lookup_instance_node, remove_instance_assignment,
}

module _ (change : NodeAgentRecord → NodeAgentRecord) (r : Repository) (node_id : String) where
  pub change_node-get :
      (j : String)
      → get_node (change_node change r node_id).1 j
        ≡ (if node_id == j then Option.map change (get_node r j) else get_node r j)
  unfolding change_node
  change_node-get j = ground (arith, get-modify r.nodes node_id j change, eq_iff node_id j)

  pub change_node-is_ok :
      is_ok (change_node change r node_id).0 ≡ HashMap.contains_key r.nodes node_id
  unfolding change_node
  change_node-is_ok = ground arith

  pub change_node-assignments : (change_node change r node_id).1.assignments ≡ r.assignments
  unfolding change_node
  change_node-assignments = ground arith

-- all listed nodes are in the repository
abbrev pub AllKnown : Repository → List NodeAgentRecord → Type 0
AllKnown r = All (λ n. HashMap.contains_key r.nodes n.node_id ≡ true)

pub change_node-AllKnown :
    (change : NodeAgentRecord → NodeAgentRecord) (r : Repository) (node_id : String)
    (l : List NodeAgentRecord)
    → AllKnown r l
    → AllKnown (change_node change r node_id).1 l
change_node-AllKnown change r node_id [] h = tt
change_node-AllKnown change r node_id (n ∷ ns) h = (
  ground (arith, change_node-get change r node_id n.node_id, h.0),
  change_node-AllKnown change r node_id ns h.1,
)

abbrev pub IsNamedNode : String → Option NodeAgentRecord → Type 0
IsNamedNode id none = Unit
IsNamedNode id (some n) = n.node_id ≡ id

-- nodes stand under their own identifiers, and every assigned instance is on a known node
pub record IsRouted (r : Repository) : Type 0 where
  pub distinct : IsDistinct r.nodes
  pub named : (id : String) → IsNamedNode id (get_node r id)
  pub placed :
      (i node_id : String)
      → lookup_instance_node r i ≡ some node_id
      → HashMap.contains_key r.nodes node_id ≡ true

pub new_repository-IsRouted : IsRouted new_repository
new_repository-IsRouted = record {
  distinct = empty-IsDistinct NodeAgentRecord;
  named = λ id. ground (arith, get-empty {V = NodeAgentRecord} id);
  placed = λ i node_id e. ground (arith, get-empty {V = String} i, e);
}

module _ (r : Repository) (v : IsRouted r) where
  pub list_nodes-AllKnown : AllKnown r (list_nodes r)
  list_nodes-AllKnown =
      values-All (λ n. HashMap.contains_key r.nodes n.node_id ≡ true) r.nodes v.distinct
        (λ k n e. ground (arith, e, v.named k))

  pub upsert_node-IsRouted : (node : NodeAgentRecord) → IsRouted (upsert_node r node)
  upsert_node-IsRouted node =
      unfold upsert_node in
      record {
        distinct = insert-IsDistinct r.nodes node.node_id node v.distinct;
        named = λ id.
            ground
              (arith, v.named id, get-insert r.nodes node.node_id id node, eq_iff node.node_id id);
        placed = λ i node_id e.
            ground (arith, v.placed i node_id e, get-insert r.nodes node.node_id node_id node);
      }

  modify-IsRouted :
      (change : NodeAgentRecord → NodeAgentRecord) (node_id : String)
      → ((n : NodeAgentRecord) → (change n).node_id ≡ n.node_id)
      → IsRouted (record r { nodes = HashMap.modify r.nodes node_id change })
  modify-IsRouted change node_id keeps = record {
    distinct = modify-IsDistinct r.nodes node_id change v.distinct;
    named = λ id. elim (Option-cases (get_node r id)) [
      | inl e ↦ ground (arith, e, get-modify r.nodes node_id id change)
      | inr (n, e) ↦ ground (arith, e, get-modify r.nodes node_id id change, keeps n, v.named id)
    ];
    placed = λ i n e. ground (arith, v.placed i n e, get-modify r.nodes node_id n change);
  }

  pub change_node-IsRouted :
      (change : NodeAgentRecord → NodeAgentRecord) (node_id : String)
      → ((n : NodeAgentRecord) → (change n).node_id ≡ n.node_id)
      → IsRouted (change_node change r node_id).1
  unfolding change_node
  change_node-IsRouted change node_id keeps =
      elim (Bool-cases (HashMap.contains_key r.nodes node_id)) [
        | inl e ↦ rw (change_node, e) (modify-IsRouted change node_id keeps)
        | inr e ↦ rw (change_node, e) v
      ]

  pub assign_instance-IsRouted :
      (instance_id node_id : String)
      → HashMap.contains_key r.nodes node_id ≡ true
      → IsRouted (assign_instance r instance_id node_id)
  assign_instance-IsRouted instance_id node_id known =
      unfold assign_instance in
      record {
        distinct = v.distinct;
        named = v.named;
        placed = λ i n e.
            ground (arith, v.placed i n, get-insert r.assignments instance_id i node_id, known, e);
      }

  pub remove_instance_assignment-IsRouted :
      (instance_id : String) → IsRouted (remove_instance_assignment r instance_id).1
  remove_instance_assignment-IsRouted instance_id =
      unfold remove_instance_assignment in
      record {
        distinct = v.distinct;
        named = v.named;
        placed = λ i n e. ground (arith, v.placed i n, get-remove r.assignments instance_id i, e);
      }

  pub upsert_provider_metadata-IsRouted :
      (provider : ProviderMetadata) → IsRouted (upsert_provider_metadata r provider)
  upsert_provider_metadata-IsRouted provider =
      unfold upsert_provider_metadata in
      record { distinct = v.distinct; named = v.named; placed = v.placed }
