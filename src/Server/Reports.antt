-- ===== src/Server/Reports.antt =====
-- What a status report does to the statuses in the control plane.
use wasmatrix.Prelude.{
  ℤ, String, Bool, true, List, [], ◌∷◌, Option, some, Result, ok, err, is_ok, ◌≡◌, refl, ◌∙◌, arith,
  ◌==◌, eq_iff, if◌then◌else◌, Result-cases, Option-cases, inl, inr, ◌&&◌,
}
use mathlib.Core.Option
use wasmatrix.HashMap
use wasmatrix.HashMap.{get-modify}
use wasmatrix.Core.Types.{DateTime, InstanceStatus, InstanceMetadata}
use wasmatrix.ControlPlane.{ControlPlane, set_status, update_instance_status}
use wasmatrix.Proto.V1
use wasmatrix.NodeRouting.Repository.{Repository, set_heartbeat}
use wasmatrix.NodeRouting.Repository.Changes.{change_node-is_ok}
use wasmatrix.NodeRouting.Service.{record_status_report}
use wasmatrix.Server.{ControlPlaneServer, Status, read_update, apply_updates, handle_report_status}

-- the last status that the updates before the first unreadable one tell of an instance
abbrev pub told :
    V1.Generated → List V1.InstanceStatusUpdate → String → InstanceStatus → InstanceStatus
told g [] i status = status
told g (update ∷ updates) i status = elim (read_update g update) [
  | err e ↦ status
  | ok new_status ↦ told g updates i (if update.instance_id == i then new_status else status)
]

abbrev pub are_readable : V1.Generated → List V1.InstanceStatusUpdate → Bool
are_readable g [] = true
are_readable g (update ∷ updates) =
    let rest = are_readable g updates in is_ok (read_update g update) && rest

abbrev pub tell :
    V1.Generated → List V1.InstanceStatusUpdate → String → InstanceMetadata → InstanceMetadata
tell g updates i metadata = set_status (told g updates i metadata.status) metadata

-- the outcome of applying updates to a control plane
abbrev pub IsApplied :
    V1.Generated
    → List V1.InstanceStatusUpdate
    → ControlPlane
    → Result (Unit {0}) Status × ControlPlane
    → Type 0
IsApplied g updates cp outcome =
    (is_ok outcome.0 ≡ are_readable g updates)
    × ((i : String)
        → HashMap.get outcome.1.instances i
          ≡ Option.map (tell g updates i) (HashMap.get cp.instances i))
    × (outcome.1.capabilities ≡ cp.capabilities)
    × (outcome.1.crashed_instances ≡ cp.crashed_instances)

get-update_instance_status :
    (cp : ControlPlane) (j i : String) (status : InstanceStatus)
    → HashMap.get (update_instance_status cp j status).1.instances i ≡ (
        if j == i
        then Option.map (set_status status) (HashMap.get cp.instances i)
        else HashMap.get cp.instances i)
unfolding update_instance_status
get-update_instance_status cp j i status =
    ground (arith, get-modify cp.instances j i (set_status status), eq_iff j i)

update_instance_status-keeps :
    (cp : ControlPlane) (j : String) (status : InstanceStatus)
    → ((update_instance_status cp j status).1.capabilities ≡ cp.capabilities)
      × ((update_instance_status cp j status).1.crashed_instances ≡ cp.crashed_instances)
unfolding update_instance_status
update_instance_status-keeps cp j status = (ground arith, ground arith)

apply_updates-IsApplied :
    (g : V1.Generated) (updates : List V1.InstanceStatusUpdate) (cp : ControlPlane)
    → IsApplied g updates cp (apply_updates g updates cp)
unfolding apply_updates
apply_updates-IsApplied g [] cp = (refl, λ i. ground arith, refl, refl)
apply_updates-IsApplied g (update ∷ updates) cp = elim (Result-cases (read_update g update)) [
  | inr (e, p) ↦ rw (apply_updates, p) (refl, λ i. ground arith, refl, refl)
  | inl (status, p) ↦
      let next = (update_instance_status cp update.instance_id status).1 in
      let rest = apply_updates-IsApplied g updates next in
      let kept = update_instance_status-keeps cp update.instance_id status in
      rw (apply_updates, p)
        (
          ground (arith, rest.0, p),
          λ i. elim (Option-cases (HashMap.get cp.instances i)) [
            | inl q ↦
                ground
                  (arith, rest.1 i, q, p, get-update_instance_status cp update.instance_id i status)
            | inr (m, q) ↦
                ground
                  (arith, rest.1 i, q, p, get-update_instance_status cp update.instance_id i status)
          ],
          rest.2 ∙ kept.0,
          rest.3 ∙ kept.1,
        )
]

record_status_report-is_ok :
    (unix_to_utc : ℤ → Option DateTime) (r : Repository) (node_id : String) (timestamp : ℤ)
    (heartbeat : DateTime)
    → unix_to_utc timestamp ≡ some heartbeat
    → HashMap.contains_key r.nodes node_id ≡ true
    → (record_status_report unix_to_utc r node_id timestamp).0 ≡ ok tt
unfolding record_status_report
record_status_report-is_ok unix_to_utc r node_id timestamp heartbeat readable known =
    ground (arith, readable, known, change_node-is_ok (set_heartbeat heartbeat) r node_id)

-- A report with a readable time from a known node succeeds exactly if the statuses of all its
-- updates can be read. Each known instance then has the last status that the report tells of it,
-- and instances that are not known stay so; where a status cannot be read, the report fails, but the
-- updates before it have been applied. A status of crashed sets no crash mark, and no capability
-- assignment changes.
pub handle_report_status-exact :
    (g : V1.Generated) (unix_to_utc : ℤ → Option DateTime) (server : ControlPlaneServer)
    (req : V1.StatusReport) (heartbeat : DateTime)
    → unix_to_utc req.timestamp ≡ some heartbeat
    → HashMap.contains_key server.routing.repo.nodes req.node_id ≡ true
    → (is_ok (handle_report_status g unix_to_utc server req).0
        ≡ are_readable g req.instance_updates)
      × ((i : String)
          → HashMap.get (handle_report_status g unix_to_utc server req).1.control_plane.instances i
            ≡ Option.map
                (tell g req.instance_updates i)
                (HashMap.get server.control_plane.instances i))
      × ((handle_report_status g unix_to_utc server req).1.control_plane.capabilities
          ≡ server.control_plane.capabilities)
      × ((handle_report_status g unix_to_utc server req).1.control_plane.crashed_instances
          ≡ server.control_plane.crashed_instances)
unfolding handle_report_status
handle_report_status-exact g unix_to_utc server req heartbeat readable known =
    let applied = apply_updates-IsApplied g req.instance_updates server.control_plane in
    let recorded =
      record_status_report-is_ok unix_to_utc server.routing.repo req.node_id req.timestamp heartbeat
        readable known in
    elim (Result-cases (apply_updates g req.instance_updates server.control_plane).0) [
      | inl (u, q) ↦ (
        ground (arith, recorded, q, applied.0),
        λ i. ground (arith, recorded, q, applied.1 i),
        ground (arith, recorded, q, applied.2),
        ground (arith, recorded, q, applied.3),
      )
      | inr (e, q) ↦ (
        ground (arith, recorded, q, applied.0),
        λ i. ground (arith, recorded, q, applied.1 i),
        ground (arith, recorded, q, applied.2),
        ground (arith, recorded, q, applied.3),
      )
    ]
