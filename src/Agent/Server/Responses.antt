-- ===== src/Agent/Server/Responses.antt =====
-- Starts and stops through the agent's server: their answers, their effects and their reports.
use wasmatrix.Prelude.{
  ℕ, ℤ, String, false, ◌≡◌, refl, inl, inr, none, some, List, [], ◌∷◌, map, ok, err, arith,
  Result-cases, Option, Option-cases, Result, is_ok,
}
use wasmatrix.Core.Types.{
  DateTime, CoreError, CapabilityAssignment, RestartPolicy, InstanceStatus, running, stopped,
}
use wasmatrix.Proto.V1
use wasmatrix.Proto.Protocol
use wasmatrix.Proto.CoreTypes.{restart_policy_to_core, provider_type_to_core}
use wasmatrix.Proto.Conversion.Messages.{start_instance_request_of_v1}
use wasmatrix.Proto.Conversion.Plain.{stop_instance_request_of_v1}
use wasmatrix.Agent.Node.{Engine, NodeAgent, start_instance_local, stop_instance_local}
use wasmatrix.Agent.Reporting.{
  ReportClient, StatusReportService, proto_status, report_status, report_status_change,
}
use wasmatrix.Agent.Server.{
  NodeAgentServer, start_instance, stop_instance, report_change, convert_capability,
}

module _ {engine : Engine} (now : DateTime) where
  failed_start_local :
      (agent : NodeAgent engine) (instance_id : String) (module_bytes : List ℕ)
      → (capabilities : List CapabilityAssignment) (policy : RestartPolicy) (e : CoreError)
      → (start_instance_local engine now agent instance_id module_bytes capabilities policy).0
        ≡ err e
      → (start_instance_local engine now agent instance_id module_bytes capabilities policy).1
        ≡ agent
  unfolding start_instance_local
  failed_start_local agent instance_id module_bytes capabilities policy e h = ground (arith, h)

  failed_stop_local :
      (agent : NodeAgent engine) (instance_id : String) (e : CoreError)
      → (stop_instance_local engine now agent instance_id).0 ≡ err e
      → (stop_instance_local engine now agent instance_id).1 ≡ agent
  unfolding stop_instance_local
  failed_stop_local agent instance_id e h = ground (arith, h)

abbrev pub granted : Protocol.CapabilityAssignment → CapabilityAssignment
granted c = record {
  instance_id = c.instance_id;
  capability_id = c.capability_id;
  provider_type = provider_type_to_core c.provider_type;
  permissions = c.permissions;
}

map-granted :
    (caps : List Protocol.CapabilityAssignment) → map convert_capability caps ≡ map granted caps
unfolding convert_capability
map-granted [] = refl
map-granted (c ∷ caps) = rw (map-granted caps) refl

module _ {client : ReportClient} (g : V1.Generated) (timestamp : ℤ) where
  -- the reporter, where there is one, after it told the control plane once of the instance
  abbrev pub told :
      Option (StatusReportService client)
      → String
      → V1.InstanceStatus
      → Option (StatusReportService client)
  told none instance_id status = none
  told (some service) instance_id status = some (record {
    node_id = service.node_id;
    repo =
        (client.report_status service.repo (record {
          node_id = service.node_id;
          instance_updates =
              record {
                instance_id = instance_id;
                status = g.instance_status.to_i32 status;
                error_message = none;
              }
              ∷ [];
          timestamp = timestamp;
        })).1;
  })

module _ {engine : Engine} {client : ReportClient} (g : V1.Generated) where
  module _ (timestamp : ℤ) (now : DateTime) where
    -- the server after the agent did something and, if it succeeded, the control plane was told
    abbrev pub acted :
        NodeAgentServer engine client
        → Result (Unit {0}) CoreError × NodeAgent engine
        → String
        → V1.InstanceStatus
        → NodeAgentServer engine client
    acted s (err e, agent) instance_id status = s
    acted s (ok _, agent) instance_id status = record {
      agent = agent;
      status_report_controller = told g timestamp s.status_report_controller instance_id status;
      provider_lifecycle = s.provider_lifecycle;
    }

    -- the outcome of a start by what is read from its request
    abbrev pub IsStarted :
        NodeAgentServer engine client
        → Result Protocol.StartInstanceRequest String
        → V1.StartInstanceResponse × NodeAgentServer engine client
        → Type 0
    IsStarted s (err e) outcome = (outcome.0.success ≡ false) × (outcome.1 ≡ s)
    IsStarted s (ok req) outcome =
        let started =
          start_instance_local engine now s.agent req.instance_id req.module_bytes
            (map granted req.capabilities) (restart_policy_to_core req.restart_policy) in
        (outcome.0.success ≡ is_ok started.0)
        × (outcome.1 ≡ acted s started req.instance_id V1.running)

    abbrev pub IsStopped :
        NodeAgentServer engine client
        → V1.StopInstanceRequest
        → V1.StopInstanceResponse × NodeAgentServer engine client
        → Type 0
    IsStopped s stop outcome =
        let ended = stop_instance_local engine now s.agent stop.instance_id in
        (outcome.0.success ≡ is_ok ended.0)
        × (outcome.1 ≡ acted s ended stop.instance_id V1.stopped)

    report_change-acted :
        (s : NodeAgentServer engine client) (agent : NodeAgent engine) (instance_id : String)
        (status : InstanceStatus)
        → report_change g timestamp now (record s { agent = agent }) instance_id status
          ≡ acted s (ok tt, agent) instance_id (proto_status status)
    unfolding report_change report_status_change report_status
    report_change-acted s agent instance_id status =
        elim (Option-cases s.status_report_controller) [
          | inl e ↦ ground (arith, e)
          | inr (service, e) ↦ ground (arith, e)
        ]

    start_instance-IsStarted :
        (s : NodeAgentServer engine client) (start : V1.StartInstanceRequest)
        → IsStarted s
            (start_instance_request_of_v1 g start)
            (start_instance g timestamp now s start)
    unfolding start_instance proto_status
    start_instance-IsStarted s start = elim (Result-cases (start_instance_request_of_v1 g start)) [
      | inr (e, p) ↦ rw (start_instance, p) (refl, refl)
      | inl (req, p) ↦
          let caps = map granted req.capabilities in
          let policy = restart_policy_to_core req.restart_policy in
          let started =
            start_instance_local engine now s.agent req.instance_id req.module_bytes caps policy in
          let same = map-granted req.capabilities in
          elim (Result-cases started.0) [
            | inl (u, q) ↦
                rw (start_instance, p, same, q)
                  (refl, report_change-acted s started.1 req.instance_id running)
            | inr (e, q) ↦
                let unchanged =
                  failed_start_local now s.agent req.instance_id req.module_bytes caps policy e q in
                rw (start_instance, p, same, q, unchanged) (refl, refl)
          ]
    ]

    stop_instance-IsStopped :
        (s : NodeAgentServer engine client) (stop : V1.StopInstanceRequest)
        → IsStopped s stop (stop_instance g timestamp now s stop)
    unfolding stop_instance stop_instance_request_of_v1 proto_status
    stop_instance-IsStopped s stop =
        let ended = stop_instance_local engine now s.agent stop.instance_id in
        elim (Result-cases ended.0) [
          | inl (u, q) ↦
              rw (stop_instance, stop_instance_request_of_v1, q)
                (refl, report_change-acted s ended.1 stop.instance_id stopped)
          | inr (e, q) ↦
              let unchanged = failed_stop_local now s.agent stop.instance_id e q in
              rw (stop_instance, stop_instance_request_of_v1, q, unchanged) (refl, refl)
        ]

    -- A start is answered with success exactly if its request can be read and the agent accepts it with
    -- the capabilities and the policy of the request. It then has the effect of the agent's start,
    -- and a server that reports sends one report, with one update: the instance is running. Any
    -- other start leaves the server as it was. The same holds of a stop, which needs no reading
    -- and is reported as stopped.
    pub start_and_stop_outcomes :
        (s : NodeAgentServer engine client)
        → (start : V1.StartInstanceRequest) (stop : V1.StopInstanceRequest)
        → IsStarted s
            (start_instance_request_of_v1 g start)
            (start_instance g timestamp now s start)
          × IsStopped s stop (stop_instance g timestamp now s stop)
    start_and_stop_outcomes s start stop =
        (start_instance-IsStarted s start, stop_instance-IsStopped s stop)
