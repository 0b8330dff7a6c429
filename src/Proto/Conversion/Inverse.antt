-- ===== src/Proto/Conversion/Inverse.antt =====
-- The conversions of messages to the wire and back are inverse where the way back succeeds.
use wasmatrix.Prelude.{
  String, [], ◌∷◌, map, some, none, Result, ok, ok_or, collect, transpose, ◌>>=◌, ◌≡◌, ◌↔◌, arith,
  inl, inr, Result-cases, Option-cases,
}
use mathlib.Core.Option
use wasmatrix.Proto.V1
use wasmatrix.Proto.Conversion.Parts.{
  capability_assignment_to_v1, capability_assignment_of_v1, instance_metadata_to_v1,
  instance_metadata_of_v1, restart_policy_to_v1, restart_policy_of_v1, instance_status_update_to_v1,
  instance_status_update_of_v1, provider_type_to_v1, provider_type_of_v1, instance_status_to_v1,
  instance_status_of_v1, restart_policy_type_to_v1, restart_policy_type_of_v1,
}
use wasmatrix.Proto.Conversion.Messages.{
  start_instance_request_to_v1, start_instance_request_of_v1, query_instance_response_to_v1,
  query_instance_response_of_v1, list_instances_response_to_v1, list_instances_response_of_v1,
  invoke_capability_request_to_v1, invoke_capability_request_of_v1, status_report_to_v1,
  status_report_of_v1,
}

-- what a wire value is read as is exactly what is written as it
abbrev pub IsInverse : {P V : Type 0} → (P → V) → (V → Result P String) → Type 0
IsInverse {P = P} {V = V} write read = (v : V) (p : P) → (read v ≡ ok p) ↔ (write p ≡ v)

collect-IsInverse :
    {P V : Type 0} (write : P → V) (read : V → Result P String)
    → IsInverse write read
    → IsInverse (map write) (collect read)
unfolding collect
collect-IsInverse write read inverse [] [] = ground arith
collect-IsInverse write read inverse [] (p ∷ ps) = ground arith
collect-IsInverse write read inverse (v ∷ vs) [] = elim (Result-cases (read v)) [
  | inl (q, e) ↦ elim (Result-cases (collect read vs)) [
    | inl (qs, f) ↦ ground (arith, e, f)
    | inr (qs, f) ↦ ground (arith, e, f)
  ]
  | inr (q, e) ↦ ground (arith, e)
]
collect-IsInverse write read inverse (v ∷ vs) (p ∷ ps) =
    let ih = collect-IsInverse write read inverse vs ps in
    elim (Result-cases (read v)) [
      | inl (q, e) ↦ elim (Result-cases (collect read vs)) [
        | inl (qs, f) ↦ ground (arith, e, f, inverse v p, ih)
        | inr (qs, f) ↦ ground (arith, e, f, ih)
      ]
      | inr (q, e) ↦ ground (arith, e, inverse v p)
    ]

transpose-IsInverse :
    {P V : Type 0} (write : P → V) (read : V → Result P String)
    → IsInverse write read
    → IsInverse (Option.map write) (transpose read)
transpose-IsInverse write read inverse none none = ground arith
transpose-IsInverse write read inverse none (some p) = ground arith
transpose-IsInverse write read inverse (some v) none = elim (Result-cases (read v)) [
  | inl (q, e) ↦ ground (arith, e)
  | inr (q, e) ↦ ground (arith, e)
]
transpose-IsInverse write read inverse (some v) (some p) = elim (Result-cases (read v)) [
  | inl (q, e) ↦ ground (arith, e, inverse v p)
  | inr (q, e) ↦ ground (arith, e, inverse v p)
]

provider_type-IsInverse : IsInverse provider_type_to_v1 provider_type_of_v1
unfolding provider_type_to_v1 provider_type_of_v1
provider_type-IsInverse v p = ground arith

instance_status-IsInverse : IsInverse instance_status_to_v1 instance_status_of_v1
unfolding instance_status_to_v1 instance_status_of_v1
instance_status-IsInverse v p = ground arith

restart_policy_type-IsInverse : IsInverse restart_policy_type_to_v1 restart_policy_type_of_v1
unfolding restart_policy_type_to_v1 restart_policy_type_of_v1
restart_policy_type-IsInverse v p = ground arith

-- an enumeration in a message, read by way of its number
enumeration-IsInverse :
    {P V : Type 0} (write : P → V) (read : V → Result P String) (code : V1.Enumeration V)
    (message : String)
    → IsInverse write read
    → V1.IsCodec V code
    → IsInverse (λ p. code.to_i32 (write p)) (λ n. ok_or (code.of_i32 n) message >>= read)
enumeration-IsInverse write read code message inverse codec n p =
    elim (Option-cases (code.of_i32 n)) [
      | inl e ↦ ground (arith, e, codec n (write p))
      | inr (v, e) ↦ ground (arith, e, inverse v p, codec n v, codec n (write p))
    ]

module _ (g : V1.Generated) (law : V1.IsGenerated g) where
  capability_assignment-IsInverse :
      IsInverse (capability_assignment_to_v1 g) (capability_assignment_of_v1 g)
  unfolding capability_assignment_to_v1 capability_assignment_of_v1
  capability_assignment-IsInverse v p = ground (
    arith,
    enumeration-IsInverse provider_type_to_v1 provider_type_of_v1 g.provider_type
        "Invalid ProviderType" provider_type-IsInverse law.provider_types v.provider_type
        p.provider_type,
  )

  instance_metadata-IsInverse : IsInverse (instance_metadata_to_v1 g) (instance_metadata_of_v1 g)
  unfolding instance_metadata_to_v1 instance_metadata_of_v1
  instance_metadata-IsInverse v p = ground (
    arith,
    enumeration-IsInverse instance_status_to_v1 instance_status_of_v1 g.instance_status
        "Invalid InstanceStatus" instance_status-IsInverse law.instance_statuses v.status p.status,
  )

  restart_policy-IsInverse : IsInverse (restart_policy_to_v1 g) (restart_policy_of_v1 g)
  unfolding restart_policy_to_v1 restart_policy_of_v1
  restart_policy-IsInverse v p = ground (
    arith,
    enumeration-IsInverse restart_policy_type_to_v1 restart_policy_type_of_v1 g.restart_policy_type
        "Invalid RestartPolicyType" restart_policy_type-IsInverse law.restart_policy_types
        v.policy_type p.policy_type,
  )

  instance_status_update-IsInverse :
      IsInverse (instance_status_update_to_v1 g) (instance_status_update_of_v1 g)
  unfolding instance_status_update_to_v1 instance_status_update_of_v1
  instance_status_update-IsInverse v p = ground (
    arith,
    enumeration-IsInverse instance_status_to_v1 instance_status_of_v1 g.instance_status
        "Invalid InstanceStatus" instance_status-IsInverse law.instance_statuses v.status p.status,
  )

  required-IsInverse :
      {P V : Type 0} (write : P → V) (read : V → Result P String) (message : String)
      → IsInverse write read
      → IsInverse (λ p. some (write p)) (λ o. ok_or o message >>= read)
  required-IsInverse write read message inverse none p = ground arith
  required-IsInverse write read message inverse (some v) p = ground (arith, inverse v p)

  -- A start request from the wire is read as a request exactly if that request is written as it: every
  -- request survives the wire, and nothing else is accepted.
  start_instance_request-IsInverse :
      IsInverse (start_instance_request_to_v1 g) (start_instance_request_of_v1 g)
  unfolding start_instance_request_to_v1 start_instance_request_of_v1
  start_instance_request-IsInverse v p = ground (
    arith,
    collect-IsInverse (capability_assignment_to_v1 g) (capability_assignment_of_v1 g)
        capability_assignment-IsInverse v.capabilities p.capabilities,
    required-IsInverse (restart_policy_to_v1 g) (restart_policy_of_v1 g) "restart_policy is missing"
        restart_policy-IsInverse v.restart_policy p.restart_policy,
  )

  -- A query response from the wire is read as a response exactly if that one is written as it.
  query_instance_response-IsInverse :
      IsInverse (query_instance_response_to_v1 g) (query_instance_response_of_v1 g)
  unfolding query_instance_response_to_v1 query_instance_response_of_v1
  query_instance_response-IsInverse v p = ground (
    arith,
    transpose-IsInverse (instance_metadata_to_v1 g) (instance_metadata_of_v1 g)
        instance_metadata-IsInverse v.instance_of p.instance_of,
  )

  -- A list response from the wire is read as a response exactly if that one is written as it.
  list_instances_response-IsInverse :
      IsInverse (list_instances_response_to_v1 g) (list_instances_response_of_v1 g)
  unfolding list_instances_response_to_v1 list_instances_response_of_v1
  list_instances_response-IsInverse v p = ground (
    arith,
    collect-IsInverse (instance_metadata_to_v1 g) (instance_metadata_of_v1 g)
        instance_metadata-IsInverse v.instances p.instances,
  )

  -- An invocation from the wire is read as a request exactly if that one is written as it.
  invoke_capability_request-IsInverse :
      IsInverse (invoke_capability_request_to_v1 g) (invoke_capability_request_of_v1 g)
  unfolding invoke_capability_request_to_v1 invoke_capability_request_of_v1
  invoke_capability_request-IsInverse v p = ground (
    arith,
    enumeration-IsInverse provider_type_to_v1 provider_type_of_v1 g.provider_type
        "Invalid ProviderType" provider_type-IsInverse law.provider_types v.provider_type
        p.provider_type,
  )

  -- A status report from the wire is read as a report exactly if that one is written as it.
  status_report-IsInverse : IsInverse (status_report_to_v1 g) (status_report_of_v1 g)
  unfolding status_report_to_v1 status_report_of_v1
  status_report-IsInverse v p = ground (
    arith,
    collect-IsInverse (instance_status_update_to_v1 g) (instance_status_update_of_v1 g)
        instance_status_update-IsInverse v.instance_updates p.instance_updates,
  )

  -- A start request, a query response, a list response, an invocation or a status report from the wire
  -- is read as a message exactly if that message is written as it: every message survives the wire,
  -- and nothing else is accepted.
  pub messages-IsInverse :
      IsInverse (start_instance_request_to_v1 g) (start_instance_request_of_v1 g)
      × IsInverse (query_instance_response_to_v1 g) (query_instance_response_of_v1 g)
      × IsInverse (list_instances_response_to_v1 g) (list_instances_response_of_v1 g)
      × IsInverse (invoke_capability_request_to_v1 g) (invoke_capability_request_of_v1 g)
      × IsInverse (status_report_to_v1 g) (status_report_of_v1 g)
  messages-IsInverse = (
    start_instance_request-IsInverse, query_instance_response-IsInverse,
    list_instances_response-IsInverse, invoke_capability_request-IsInverse, status_report-IsInverse,
  )
