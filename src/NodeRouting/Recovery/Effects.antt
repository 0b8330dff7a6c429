-- ===== src/NodeRouting/Recovery/Effects.antt =====
-- What a recovery that reads all reported instances does to the control plane and the repository.
use wasmatrix.Prelude.{
  ℕ, ℤ, ◌+◌, ◌≤◌, min, String, Bool, true, false, refl, List, [], ◌∷◌, Option, none, some, ok, ◌≡◌,
  arith, ◌==◌, eq_refl, if◌then◌else◌, any, length, collect, count, Result-cases, inl, inr,
}
use wasmatrix.HashMap
use wasmatrix.HashMap.{get-insert, get-remove}
use wasmatrix.Core.Types.{
  DateTime, InstanceMetadata, InstanceStatus, starting, running, stopped, crashed,
}
use wasmatrix.ControlPlane.{ControlPlane, restore_instance_state}
use wasmatrix.Proto.V1
use wasmatrix.Shared.{ControlPlaneResult}
use wasmatrix.NodeRouting.Repository.{
  Repository, lookup_instance_node, assign_instance, set_count, u32_max,
}
use wasmatrix.NodeRouting.Repository.Changes.{
  change_node-get, change_node-is_ok, change_node-assignments,
}
use wasmatrix.NodeRouting.Service.Start.{active}
use wasmatrix.NodeRouting.Recovery.{read_metadata, is_active, apply_from, apply_recovered_instances}

abbrev pub names : List InstanceMetadata → String → Bool
names metas i = any metas (λ m. m.instance_id == i)

-- whether an instance counts for its node
abbrev pub is_starting_or_running : InstanceStatus → Bool
is_starting_or_running starting = true
is_starting_or_running running = true
is_starting_or_running _ = false

is_active-starting_or_running : (st : InstanceStatus) → is_active st ≡ is_starting_or_running st
is_active-starting_or_running starting = refl
is_active-starting_or_running running = refl
is_active-starting_or_running stopped = refl
is_active-starting_or_running crashed = refl

-- the metadata last reported for the instance, if any, and otherwise the given one
abbrev pub last_reported :
    List InstanceMetadata → String → Option InstanceMetadata → Option InstanceMetadata
last_reported [] i before = before
last_reported (meta ∷ metas) i before =
    last_reported metas i (if meta.instance_id == i then some meta else before)

-- the outcome of a recovery of the given instances after others
abbrev pub IsRecovered :
    String
    → List InstanceMetadata
    → ℕ
    → ℕ
    → ControlPlane × Repository
    → ControlPlaneResult ℕ × (ControlPlane × Repository)
    → Type 0
IsRecovered node_id metas recovered active_count before outcome =
    (outcome.0 ≡ ok (recovered + length metas))
    × ((i : String)
        → lookup_instance_node outcome.1.1 i
          ≡ (if names metas i then some node_id else lookup_instance_node before.1 i))
    × (active outcome.1.1 node_id
        ≡ some (min (active_count + count (λ m. is_starting_or_running m.status) metas) u32_max))
    × ((i : String)
        → HashMap.get outcome.1.0.capabilities i
          ≡ (if names metas i then none else HashMap.get before.0.capabilities i))
    × ((i : String)
        → HashMap.get outcome.1.0.instances i
          ≡ last_reported metas i (HashMap.get before.0.instances i))
    × (outcome.1.0.crashed_instances ≡ before.0.crashed_instances)
    × (outcome.1.0.event_recorder ≡ before.0.event_recorder)

module _ (g : V1.Generated) (unix_to_utc : ℤ → Option DateTime) (node_id : String) where
  apply_from-done :
      (recovered active_count : ℕ) (cp : ControlPlane) (r : Repository)
      → HashMap.contains_key r.nodes node_id ≡ true
      → active_count ≤ u32_max
      → IsRecovered node_id [] recovered active_count
          (cp, r)
          (apply_from g unix_to_utc node_id [] recovered active_count (cp, r))
  unfolding apply_from any
  apply_from-done recovered active_count cp r known small =
      let at = change_node-get (set_count active_count) r node_id in
      let good = change_node-is_ok (set_count active_count) r node_id in
      (
        ground (arith, good, known),
        λ i.
            ground (arith, good, known, change_node-assignments (set_count active_count) r node_id),
        ground (arith, good, known, at node_id, eq_refl node_id),
        λ i. ground (arith, good, known),
        λ i. ground (arith, good, known),
        ground (arith, good, known),
        ground (arith, good, known),
      )

  IsRecovered-cons :
      (meta : InstanceMetadata) (metas : List InstanceMetadata) (recovered active_count : ℕ)
      (cp : ControlPlane) (r : Repository)
      (outcome : ControlPlaneResult ℕ × (ControlPlane × Repository))
      → IsRecovered node_id metas
          (recovered + 1)
          (if is_active meta.status then min (active_count + 1) u32_max else active_count)
          (restore_instance_state cp meta [], assign_instance r meta.instance_id node_id)
          outcome
      → IsRecovered node_id (meta ∷ metas) recovered active_count (cp, r) outcome
  unfolding restore_instance_state assign_instance any
  IsRecovered-cons meta metas recovered active_count cp r outcome s = (
    ground (arith, s.0),
    λ i. ground (arith, s.1 i, get-insert r.assignments meta.instance_id i node_id),
    ground (arith, s.2, is_active-starting_or_running meta.status),
    λ i. ground (arith, s.3 i, get-remove cp.capabilities meta.instance_id i),
    λ i. rw (s.4 i, get-insert cp.instances meta.instance_id i meta) refl,
    s.5,
    s.6,
  )

  assigned-known :
      (r : Repository) (i : String)
      → HashMap.contains_key r.nodes node_id ≡ true
      → HashMap.contains_key (assign_instance r i node_id).nodes node_id ≡ true
  unfolding assign_instance
  assigned-known r i known = known

  apply_from-IsRecovered :
      (reported : List V1.InstanceMetadata) (metas : List InstanceMetadata)
      (recovered active_count : ℕ) (cp : ControlPlane) (r : Repository)
      → HashMap.contains_key r.nodes node_id ≡ true
      → active_count ≤ u32_max
      → collect (read_metadata g unix_to_utc) reported ≡ ok metas
      → IsRecovered node_id metas recovered active_count
          (cp, r)
          (apply_from g unix_to_utc node_id reported recovered active_count (cp, r))
  unfolding collect apply_from
  apply_from-IsRecovered [] [] recovered active_count cp r known small e =
      apply_from-done recovered active_count cp r known small
  apply_from-IsRecovered [] (meta ∷ metas) recovered active_count cp r known small e =
      absurd (ground (arith, e))
  apply_from-IsRecovered (report ∷ reported) metas recovered active_count cp r known small e =
      elim (Result-cases (read_metadata g unix_to_utc report)) [
        | inr (x, p) ↦ absurd (ground (arith, p, e))
        | inl (meta, p) ↦ elim (Result-cases (collect (read_metadata g unix_to_utc) reported)) [
          | inr (x, q) ↦ absurd (ground (arith, p, q, e))
          | inl (rest, q) ↦
              let same : metas ≡ meta ∷ rest = ground (arith, p, q, e) in
              let next =
                if is_active meta.status then min (active_count + 1) u32_max else active_count in
              let after_cp = restore_instance_state cp meta [] in
              let after_r = assign_instance r meta.instance_id node_id in
              rw (apply_from, p, same)
                (IsRecovered-cons meta rest recovered active_count cp r
                  (apply_from g unix_to_utc node_id reported (recovered + 1) next
                    (after_cp, after_r))
                  (apply_from-IsRecovered reported rest (recovered + 1) next after_cp after_r
                    (assigned-known r meta.instance_id known) (ground (arith, small)) q))
        ]
      ]

  -- A recovery of a known node all of whose reported instances can be read counts them all. Each of
  -- them is then assigned to the node and known to the control plane by its last report, and has no
  -- capability assignment any more, even if it had some before; the node has as many active
  -- instances as were reported starting or running, up to the largest `u32`. Other instances keep
  -- their node, their metadata and their capability assignments, and crash marks and events stay
  -- as they were.
  pub apply_recovered_instances-IsRecovered :
      (reported : List V1.InstanceMetadata) (metas : List InstanceMetadata) (cp : ControlPlane)
      (r : Repository)
      → HashMap.contains_key r.nodes node_id ≡ true
      → collect (read_metadata g unix_to_utc) reported ≡ ok metas
      → IsRecovered node_id metas 0 0
          (cp, r)
          (apply_recovered_instances g unix_to_utc node_id reported (cp, r))
  unfolding apply_recovered_instances
  apply_recovered_instances-IsRecovered reported metas cp r known e =
      apply_from-IsRecovered reported metas 0 0 cp r known (omega arith) e
