-- ===== src/Agent/Reporting/Heartbeats.antt =====
-- What a heartbeat of an agent does in the control plane that receives it.
use wasmatrix.Prelude.{
  ℤ, String, Bool, true, false, List, [], ◌∷◌, map, contains, Option, none, some, ok, is_ok, ◌≡◌,
  refl, arith, ◌==◌, ◌||◌, if◌then◌else◌, inl, inr, Option-cases, text-cases, eq_refl, ◌∙◌,
}
use mathlib.Core.Option
use mathlib.Core.Path.{subst}
use wasmatrix.HashMap
use wasmatrix.Core.Types.{
  DateTime, InstanceStatus, starting, running, stopped, crashed, InstanceMetadata,
}
use wasmatrix.ControlPlane.{set_status}
use wasmatrix.Proto.V1
use wasmatrix.Proto.CoreTypes.{instance_status_to_core}
use wasmatrix.Proto.Conversion.Parts.{instance_status_of_v1}
use wasmatrix.Agent.Node.{Engine, NodeAgent, list_instances, get_instance_status}
use wasmatrix.Agent.Reporting.{proto_status, status_update, report_of, heartbeat_updates}
use wasmatrix.Server.{ControlPlaneServer, read_update, handle_report_status}
use wasmatrix.Server.Reports.{told, are_readable, handle_report_status-exact}

module _ (g : V1.Generated) (law : V1.IsGenerated g) where
  -- the control plane reads from an update the status that was put into it
  read_update-status_update :
      (id : String) (status : InstanceStatus) (error_message : Option String)
      → read_update g (status_update g id status error_message) ≡ ok status
  unfolding read_update proto_status instance_status_of_v1 instance_status_to_core
  read_update-status_update id starting m =
      ground (arith, law.instance_statuses (g.instance_status.to_i32 V1.starting) V1.starting)
  read_update-status_update id running m =
      ground (arith, law.instance_statuses (g.instance_status.to_i32 V1.running) V1.running)
  read_update-status_update id stopped m =
      ground (arith, law.instance_statuses (g.instance_status.to_i32 V1.stopped) V1.stopped)
  read_update-status_update id crashed m =
      ground (arith, law.instance_statuses (g.instance_status.to_i32 V1.crashed) V1.crashed)

  module _ (status_of : String → InstanceStatus) where
    abbrev updates_of : List String → List V1.InstanceStatusUpdate
    updates_of ids = map (λ id. status_update g id (status_of id) none) ids

    last_word :
        (id i : String) (later : Bool) (old : InstanceStatus)
        → (if later then status_of i else if id == i then status_of id else old)
          ≡ (if id == i || later then status_of i else old)
    last_word id i later old = elim (text-cases id i) [
      | inl e ↦
          subst
            (λ j.
              (if later then status_of j else if id == j then status_of id else old)
              ≡ (if id == j || later then status_of j else old))
            e (ground (arith, eq_refl id))
      | inr e ↦ ground (arith, e)
    ]

    told-updates_of :
        (ids : List String) (i : String) (old : InstanceStatus)
        → told g (updates_of ids) i old ≡ (if contains ids i then status_of i else old)
    unfolding contains
    told-updates_of [] i old = refl
    told-updates_of (id ∷ ids) i old =
        rw
          (
            told,
            read_update-status_update id (status_of id) none,
            told-updates_of ids i (if id == i then status_of id else old),
          )
          (last_word id i (contains ids i) old)

    are_readable-updates_of : (ids : List String) → are_readable g (updates_of ids) ≡ true
    are_readable-updates_of [] = refl
    are_readable-updates_of (id ∷ ids) =
        rw (read_update-status_update id (status_of id) none, are_readable-updates_of ids) refl

  module _ (engine : Engine) (agent : NodeAgent engine) where
    -- what the agent says of an instance that it lists
    abbrev pub as_reported : String → InstanceMetadata → InstanceMetadata
    as_reported i metadata =
        if contains (list_instances engine agent) i
        then set_status (get_instance_status engine agent i) metadata
        else metadata

    as_reported_lem :
        (i : String) (m : InstanceMetadata)
        → set_status (told g (heartbeat_updates engine g agent) i m.status) m ≡ as_reported i m
    unfolding heartbeat_updates
    as_reported_lem i m =
        rw
          (told-updates_of (get_instance_status engine agent) (list_instances engine agent) i
            m.status)
          (by_case (contains (list_instances engine agent) i))
      where
        by_case :
            (b : Bool)
            → set_status (if b then get_instance_status engine agent i else m.status) m
              ≡ (if b then set_status (get_instance_status engine agent i) m else m)
        by_case true = refl
        by_case false = refl

    heartbeat_is_readable : are_readable g (heartbeat_updates engine g agent) ≡ true
    unfolding heartbeat_updates
    heartbeat_is_readable =
        are_readable-updates_of (get_instance_status engine agent) (list_instances engine agent)

    -- A heartbeat of an agent, received by a control plane that knows its node and can read its time,
    -- is accepted; then each known instance that the agent lists has the status that the agent gives
    -- it, and every other instance is as before.
    pub handle_report_status-heartbeat :
        (unix_to_utc : ℤ → Option DateTime) (timestamp : ℤ) (heartbeat : DateTime)
        → (node_id : String) (server : ControlPlaneServer) → unix_to_utc timestamp ≡ some heartbeat
        → HashMap.contains_key server.routing.repo.nodes node_id ≡ true
        → let report = report_of node_id timestamp (heartbeat_updates engine g agent) in
          let answer = handle_report_status g unix_to_utc server report in
          (is_ok answer.0 ≡ true)
          × ((i : String)
              → HashMap.get answer.1.control_plane.instances i
                ≡ Option.map (as_reported i) (HashMap.get server.control_plane.instances i))
    handle_report_status-heartbeat unix_to_utc timestamp heartbeat node_id server readable known =
        let updates = heartbeat_updates engine g agent in
        let exact =
          handle_report_status-exact g unix_to_utc server (report_of node_id timestamp updates)
            heartbeat readable known in
        (
          exact.0 ∙ heartbeat_is_readable,
          λ i. elim (Option-cases (HashMap.get server.control_plane.instances i)) [
            | inl e ↦ exact.1 i ∙ rw (e) refl
            | inr (m, e) ↦ exact.1 i ∙ rw (e, as_reported_lem i m) refl
          ],
        )
