-- ===== src/Network/Queries.antt =====
-- What a client of the control plane is told of an instance that an agent runs.
use wasmatrix.Prelude.{
  ℕ, ℤ, pos, String, Bool, true, false, ◌≡◌, refl, ◌∙◌, ap, Option, some, List, map, Result, ok,
  is_ok, arith, eq_refl, inl, inr, Result-cases, collect, ok_or, ◌>>=◌,
}
use wasmatrix.HashMap
use wasmatrix.Core.Types.{
  DateTime, InstanceStatus, starting, running, stopped, crashed, RestartPolicy,
  CapabilityAssignment, InstanceStatusResponse, StartInstanceRequest,
}
use wasmatrix.Proto.V1
use wasmatrix.Proto.Protocol
use wasmatrix.Proto.CoreTypes.{
  instance_status_of_core, instance_status_to_core, restart_policy_to_core,
}
use wasmatrix.Proto.Conversion.Parts.{
  instance_metadata_to_v1, instance_status_to_v1, instance_status_of_v1,
  capability_assignment_of_v1, restart_policy_of_v1,
}
use wasmatrix.Proto.Conversion.Messages.{start_instance_request_of_v1}
use wasmatrix.NodeRouting.Repository.{NodeAgentRecord, Repository, lookup_instance_node, get_node}
use wasmatrix.NodeRouting.Service.{start_request_to}
use wasmatrix.NodeRouting.Requests.{reach_node, read_status, route_query_instance}
use wasmatrix.Agent.Node.{Engine, NodeAgent, launch, start_instance_local, get_instance_status}
use wasmatrix.Agent.Node.Local.{start_instance_local-status}
use wasmatrix.Agent.Reporting.{ReportClient}
use wasmatrix.Agent.Server.{
  NodeAgentServer, start_instance, query_instance, report_change, convert_capability,
}
use wasmatrix.Network.{Servers, replace, network_client}

abbrev pub answered : DateTime → String → InstanceStatus → InstanceStatusResponse
answered epoch instance_id status = record {
  instance_id = instance_id;
  status = status;
  node_id = "local";
  created_at = epoch;
}

started-launch :
    {engine : Engine} (now : DateTime) (agent : NodeAgent engine) (id : String) (bytes : List ℕ)
    → (caps : List CapabilityAssignment) (policy : RestartPolicy)
    → (start_instance_local engine now agent id bytes caps policy).0 ≡ ok tt
    → is_ok (launch engine now id bytes caps policy) ≡ true
unfolding start_instance_local
started-launch now agent id bytes caps policy h = ground (arith, h)

module _ (g : V1.Generated) where
  id_of_read :
      (v : V1.StartInstanceRequest) (p : Protocol.StartInstanceRequest)
      → start_instance_request_of_v1 g v ≡ ok p
      → p.instance_id ≡ v.instance_id
  unfolding start_instance_request_of_v1
  id_of_read v p h = elim (Result-cases (collect (capability_assignment_of_v1 g) v.capabilities)) [
    | inr (x, e) ↦ absurd (ground (arith, h, e))
    | inl (caps, e) ↦
        elim (Result-cases
          (ok_or v.restart_policy "restart_policy is missing" >>= restart_policy_of_v1 g)) [
            | inr (x, f) ↦ absurd (ground (arith, h, e, f))
            | inl (policy, f) ↦ ground (arith, h, e, f)
          ]
  ]

  module _ {engine : Engine} {reports : ReportClient} (timestamp : ℤ) (now : DateTime) where
    agent_of_report :
        (s : NodeAgentServer engine reports) (id : String) (status : InstanceStatus)
        → (report_change g timestamp now s id status).agent ≡ s.agent
    unfolding report_change
    agent_of_report s id status = ground arith

    -- a start that is answered with success is one that the agent accepted
    accepted_start :
        (s : NodeAgentServer engine reports) (request : V1.StartInstanceRequest)
        → (start_instance g timestamp now s request).0.success ≡ true
        → (req : Protocol.StartInstanceRequest) × (start_instance_request_of_v1 g request ≡ ok req)
          × (let started =
                start_instance_local engine now s.agent req.instance_id req.module_bytes
                  (map convert_capability req.capabilities)
                  (restart_policy_to_core req.restart_policy) in
              (started.0 ≡ ok tt)
              × ((start_instance g timestamp now s request).1
                  ≡ report_change g timestamp now
                      (record s { agent = started.1 })
                      req.instance_id
                      running))
    unfolding start_instance
    accepted_start s request accepted =
        elim (Result-cases (start_instance_request_of_v1 g request)) [
          | inr (e, p) ↦ absurd (ground (arith, p, accepted))
          | inl (req, p) ↦
              let caps = map convert_capability req.capabilities in
              let policy = restart_policy_to_core req.restart_policy in
              let started =
                start_instance_local engine now s.agent req.instance_id req.module_bytes caps
                  policy in
              elim (Result-cases started.0) [
                | inr (e, q) ↦ absurd (ground (arith, p, q, accepted))
                | inl (u, q) ↦ (req, p, (q, rw (start_instance, p, q) refl))
              ]
        ]

    -- an agent that accepted a start of an instance that has no crash mark says that it runs
    status_after_start :
        (s : NodeAgentServer engine reports) (request : V1.StartInstanceRequest)
        → (start_instance g timestamp now s request).0.success ≡ true
        → HashMap.contains_key s.agent.crashed_instances request.instance_id ≡ false
        → get_instance_status engine
            (start_instance g timestamp now s request).1.agent
            request.instance_id
          ≡ running
    status_after_start s request accepted unmarked =
        let (req, p, outcome) = accepted_start s request accepted in
        let (q, same) = outcome in
        let caps = map convert_capability req.capabilities in
        let policy = restart_policy_to_core req.restart_policy in
        let status =
          start_instance_local-status engine s.agent now req.instance_id req.module_bytes caps
            policy request.instance_id in
        let launched = started-launch now s.agent req.instance_id req.module_bytes caps policy q in
        let id = id_of_read request req p in
        ap
          (λ (a : NodeAgentServer engine reports).
            get_instance_status engine a.agent request.instance_id)
          same
        ∙ ap (λ (a : NodeAgent engine). get_instance_status engine a request.instance_id)
            (agent_of_report _ req.instance_id running)
        ∙ status
        ∙ rw (launched, id, eq_refl request.instance_id, unmarked) refl

module _ (g : V1.Generated) (law : V1.IsGenerated g) where
  pub read_status-core :
      (status : InstanceStatus)
      → read_status g
          (g.instance_status.to_i32 (instance_status_to_v1 (instance_status_of_core status)))
        ≡ ok status
  unfolding read_status instance_status_of_core instance_status_to_v1 instance_status_of_v1
      instance_status_to_core
  read_status-core starting =
      ground (arith, law.instance_statuses (g.instance_status.to_i32 V1.starting) V1.starting)
  read_status-core running =
      ground (arith, law.instance_statuses (g.instance_status.to_i32 V1.running) V1.running)
  read_status-core stopped =
      ground (arith, law.instance_statuses (g.instance_status.to_i32 V1.stopped) V1.stopped)
  read_status-core crashed =
      ground (arith, law.instance_statuses (g.instance_status.to_i32 V1.crashed) V1.crashed)

  module _ {engine : Engine} {reports : ReportClient} (timestamp : ℤ) (now : DateTime)
      (invoke : String → V1.InvokeCapabilityRequest → Result V1.InvokeCapabilityResponse String)
      (reachable : String → Bool) (unix_to_utc : ℤ → Option DateTime) (epoch : DateTime)
      (reads_epoch : unix_to_utc (pos 0) ≡ some epoch) (r : Repository)
      (instance_id node_id : String) (node : NodeAgentRecord)
      (placed : lookup_instance_node r instance_id ≡ some node_id)
      (known : get_node r node_id ≡ some node) (up : reachable node.node_address ≡ true) where
    route_query_instance-network :
        (servers : Servers engine reports)
        → route_query_instance
            (network_client g timestamp now invoke reachable servers)
            g
            unix_to_utc
            r
            (record { instance_id = instance_id })
          ≡ ok (
              answered epoch instance_id
                (get_instance_status engine (servers node.node_address).agent instance_id))
    unfolding route_query_instance reach_node query_instance instance_metadata_to_v1
    route_query_instance-network servers =
        rw
          (
            route_query_instance,
            reach_node,
            placed,
            known,
            up,
            query_instance,
            instance_metadata_to_v1,
            read_status-core
                (get_instance_status engine (servers node.node_address).agent instance_id),
            reads_epoch,
          )
          refl

    -- Suppose an instance is assigned to a known node whose address can be reached. If the server there
    -- accepts the start that the routing sends for the instance, and its agent has no crash mark for
    -- it, then a query through the control plane answers that the instance is running.
    pub route_query_instance-start :
        (servers : Servers engine reports) (request : StartInstanceRequest)
        → let server = servers node.node_address in
          let start = start_request_to g instance_id request in
          (start_instance g timestamp now server start).0.success ≡ true
          → HashMap.contains_key (servers node.node_address).agent.crashed_instances instance_id
            ≡ false
          → let server = servers node.node_address in
            let start = start_request_to g instance_id request in
            let after =
              replace servers node.node_address (start_instance g timestamp now server start).1 in
            route_query_instance
              (network_client g timestamp now invoke reachable after)
              g
              unix_to_utc
              r
              (record { instance_id = instance_id })
            ≡ ok (answered epoch instance_id running)
    unfolding start_request_to
    route_query_instance-start servers request accepted unmarked =
        let server = servers node.node_address in
        let start = start_request_to g instance_id request in
        let after =
          replace servers node.node_address (start_instance g timestamp now server start).1 in
        let there : after node.node_address ≡ (start_instance g timestamp now server start).1 =
          rw (eq_refl node.node_address) refl in
        route_query_instance-network after
        ∙ ap
            (λ (n : NodeAgentServer engine reports).
              ok (answered epoch instance_id (get_instance_status engine n.agent instance_id)))
            there
        ∙ ap (λ (st : InstanceStatus). ok (answered epoch instance_id st))
            (status_after_start g timestamp now server start accepted unmarked)
