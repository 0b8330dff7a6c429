-- ===== src/Agent/Invocation/Outcomes.antt =====
-- What an invocation through the agent's server leaves behind.
use wasmatrix.Prelude.{
  String, true, false, ◌≡◌, refl, ◌⊎◌, ◌∙◌, ap, not, [], ◌∷◌, ok_of_is_ok, some, List, ok, err,
  is_ok, arith, Result-cases, inl, inr,
}
use wasmatrix.Core.Types.{CoreError}
use wasmatrix.Core.Errors.{display}
use wasmatrix.HashMap
use wasmatrix.Proto.V1
use wasmatrix.Proto.Protocol
use wasmatrix.Providers.Json.{SerdeJson, index}
use wasmatrix.Providers.Lifecycle.{
  LifecycleRepository, ensure_provider_available, get_state, is_stopped, is_stopped-ensure,
  is_ok-ensure,
}
use wasmatrix.Providers.Kv
use wasmatrix.Agent.Node.{Engine}
use wasmatrix.Agent.Reporting.{ReportClient}
use wasmatrix.Agent.Server.{NodeAgentServer}
use wasmatrix.Agent.Invocation.{
  Outside, failed_precondition, read_provider_type, read_params, respond, completed, serve,
  invoke_capability,
}

ensure-refused :
    (r : LifecycleRepository) (id : String) (e : CoreError)
    → (ensure_provider_available r id).0 ≡ err e
    → (ensure_provider_available r id).1 ≡ r
unfolding ensure_provider_available
ensure-refused r id e h = ground (arith, h)

module _ (J : SerdeJson) (g : V1.Generated) (outside : Outside J) {engine : Engine}
    {reports : ReportClient} where
  -- An invocation whose provider is stopped fails with a failed precondition and changes nothing. Any
  -- other leaves the agent's instances and its reports as before, whatever its outcome, and of the
  -- providers' states changes only what the check of availability does.
  pub invoke_capability-outcomes :
      (w : outside.client.World) (s : NodeAgentServer engine reports)
      → (req : V1.InvokeCapabilityRequest)
      → let available = ensure_provider_available s.provider_lifecycle req.capability_id in
        let answer = invoke_capability J g outside w s req in
        ((e : CoreError) × (available.0 ≡ err e)
          × (answer ≡ (err (failed_precondition (display e)), s, w)))
        ⊎ ((available.0 ≡ ok tt)
            × (answer.1.agent ≡ s.agent)
            × (answer.1.status_report_controller ≡ s.status_report_controller)
            × (answer.1.provider_lifecycle ≡ available.1))
  unfolding invoke_capability
  invoke_capability-outcomes w s req =
      let available = ensure_provider_available s.provider_lifecycle req.capability_id in
      elim (Result-cases available.0) [
        | inr (e, p) ↦
            let same = ensure-refused s.provider_lifecycle req.capability_id e p in
            inl (e, p, rw (invoke_capability, p, same) refl)
        | inl (u, p) ↦ let kept = keeps w s req u p in inr (p, kept.0, kept.1, kept.2)
      ]
    where
      keeps :
          (w : outside.client.World) (s : NodeAgentServer engine reports)
          → (req : V1.InvokeCapabilityRequest) (u : Unit {0})
          → (ensure_provider_available s.provider_lifecycle req.capability_id).0 ≡ ok u
          → let answer = invoke_capability J g outside w s req in
            (answer.1.agent ≡ s.agent)
            × (answer.1.status_report_controller ≡ s.status_report_controller)
            × (answer.1.provider_lifecycle
                ≡ (ensure_provider_available s.provider_lifecycle req.capability_id).1)
      keeps w s req u p = elim (Result-cases (read_provider_type J g req)) [
        | inr (e, q) ↦ rw (invoke_capability, p, q) (refl, refl, refl)
        | inl (t, q) ↦ elim (Result-cases (read_params J g req)) [
          | inr (e, r) ↦ rw (invoke_capability, p, q, r) (refl, refl, refl)
          | inl (params, r) ↦ rw (invoke_capability, p, q, r) (refl, refl, refl)
        ]
      ]

  unfoldable pub invoke_run :
      outside.client.World
      → NodeAgentServer engine reports
      → List V1.InvokeCapabilityRequest
      → NodeAgentServer engine reports × outside.client.World
  invoke_run w s [] = (s, w)
  invoke_run w s (req ∷ reqs) =
      let after = invoke_capability J g outside w s req in invoke_run after.2 after.1 reqs

  available-run :
      (reqs : List V1.InvokeCapabilityRequest) (w : outside.client.World)
      → (s : NodeAgentServer engine reports) (id : String)
      → is_stopped (get_state (invoke_run w s reqs).0.provider_lifecycle id)
        ≡ is_stopped (get_state s.provider_lifecycle id)
  unfolding invoke_run
  available-run [] w s id = refl
  available-run (req ∷ reqs) w s id =
      let after = invoke_capability J g outside w s req in
      let rest = available-run reqs after.2 after.1 id in
      elim (invoke_capability-outcomes w s req) [
        | inl (e, p, q) ↦ rest ∙ ap (λ a. is_stopped (get_state a.1.provider_lifecycle id)) q
        | inr (p, q0, q1, q) ↦
            rest
            ∙ ap (λ l. is_stopped (get_state l id)) q
            ∙ is_stopped-ensure s.provider_lifecycle id req.capability_id
      ]

  get_is_empty :
      (w : outside.client.World) (s : NodeAgentServer engine reports)
      → (req : V1.InvokeCapabilityRequest) (params : J.Value) (key : String)
      → (ensure_provider_available s.provider_lifecycle req.capability_id).0 ≡ ok tt
      → read_provider_type J g req ≡ ok Protocol.kv
      → read_params J g req ≡ ok params
      → req.operation ≡ "get"
      → J.as_str (index J params "key") ≡ some key
      → (invoke_capability J g outside w s req).0 ≡ ok (completed (J.to_string (J.text "")))
  unfolding invoke_capability serve respond Kv.invoke Kv.get HashMap.get HashMap.empty
  get_is_empty w s req params key available kind read get has_key =
      rw (invoke_capability, available, kind, read, serve, get, Kv.invoke, has_key) refl

  -- Whatever invocations came before, a "get" on an available KV provider answers the empty text: what
  -- an earlier "set" stored is gone, since each call has a provider of its own.
  pub get_after_run :
      (earlier : List V1.InvokeCapabilityRequest) (w : outside.client.World)
      → (s : NodeAgentServer engine reports)
      → (req : V1.InvokeCapabilityRequest) (params : J.Value) (key : String)
      → is_stopped (get_state s.provider_lifecycle req.capability_id) ≡ false
      → read_provider_type J g req ≡ ok Protocol.kv
      → read_params J g req ≡ ok params
      → req.operation ≡ "get"
      → J.as_str (index J params "key") ≡ some key
      → let now = invoke_run w s earlier in
        (invoke_capability J g outside now.1 now.0 req).0 ≡ ok (completed (J.to_string (J.text "")))
  get_after_run earlier w s req params key running kind read get has_key =
      let now = invoke_run w s earlier in
      let id = req.capability_id in
      let available : is_ok (ensure_provider_available now.0.provider_lifecycle id).0 ≡ true =
        is_ok-ensure now.0.provider_lifecycle id
        ∙ ap not (available-run earlier w s id ∙ running) in
      get_is_empty now.1 now.0 req params key (ok_of_is_ok _ available) kind read get has_key
