-- ===== src/Instances/Agreement.antt =====
-- The instance service over the in-memory repository beside the control plane of
-- crates/wasmatrix-control-plane/src/lib.rs, which keeps a second account of the instances.
use wasmatrix.Prelude.{
  ℕ, ◌≤◌, String, false, ◌≡◌, refl, Option, some, List, [], ◌∷◌, ok, value_of, is_empty, length,
  ltb, All, arith, ◌==◌, Bool-cases, Option-cases, inl, inr,
}
use wasmatrix.HashMap
use wasmatrix.HashMap.{HashMap}
use wasmatrix.Core.Wasm.{lacks_magic}
use wasmatrix.Core.Types.{
  DateTime, InstanceMetadata, new_metadata, StartInstanceRequest, StopInstanceRequest, stopped,
  QueryInstanceRequest, InstanceStatusResponse,
}
use wasmatrix.ControlPlane
use wasmatrix.ControlPlane.{ControlPlane}
use wasmatrix.Instances.Memory.{
  in_memory, create as store, get as look_up, update_status as set, exists,
}
use wasmatrix.Instances.Service.{
  InstanceService, size_limit, validate_wasm_module, handle_start, handle_stop, handle_query,
  start_instance, stop_instance, query_instance,
}

-- the service that keeps the instances of a control plane
abbrev pub beside : ControlPlane → InstanceService in_memory
beside cp = record { repo = cp.instances; node_id = cp.node_id }

set_known :
    (storage : HashMap InstanceMetadata) (id : String) (m : InstanceMetadata)
    → HashMap.get storage id ≡ some m
    → set storage id stopped ≡ (ok tt, HashMap.modify storage id (ControlPlane.set_status stopped))
unfolding set
set_known storage id m e = rw (set, e) refl

module _ (cp : ControlPlane) where
  start_agrees :
      (md5 : List ℕ → String) (uuid : String) (now : DateTime) (request : StartInstanceRequest)
      → length request.module_bytes ≤ size_limit
      → let answer = handle_start md5 uuid now (beside cp) request in
        (value_of answer.0 ≡ value_of (ControlPlane.start_instance md5 uuid now cp request).0)
        × (answer.1 ≡ beside (ControlPlane.start_instance md5 uuid now cp request).1)
  unfolding ControlPlane.start_instance handle_start start_instance validate_wasm_module store
      new_metadata
  start_agrees md5 uuid now request small =
      let limit : ltb size_limit (length request.module_bytes) ≡ false = ground (arith, small) in
      elim (Bool-cases (is_empty request.module_bytes)) [
        | inl empty ↦
            rw
              (
                handle_start, start_instance, ControlPlane.start_instance, validate_wasm_module,
                empty,
              )
              (refl, refl)
        | inr full ↦ elim (Bool-cases (lacks_magic request.module_bytes)) [
          | inl bad ↦
              rw
                (
                  handle_start, start_instance, ControlPlane.start_instance, validate_wasm_module,
                  full, bad,
                )
                (refl, refl)
          | inr good ↦ elim (Bool-cases (is_empty request.capabilities)) [
            | inl e ↦
                rw
                  (
                    handle_start, start_instance, ControlPlane.start_instance, validate_wasm_module,
                    full, good, limit, e,
                  )
                  (refl, refl)
            | inr e ↦
                rw
                  (
                    handle_start, start_instance, ControlPlane.start_instance, validate_wasm_module,
                    full, good, limit, e,
                  )
                  (refl, refl)
          ]
        ]
      ]

  stop_agrees :
      (now : DateTime) (request : StopInstanceRequest)
      → let answer = handle_stop now (beside cp) request in
        (value_of answer.0 ≡ value_of (ControlPlane.stop_instance now cp request).0)
        × (answer.1 ≡ beside (ControlPlane.stop_instance now cp request).1)
  unfolding ControlPlane.stop_instance handle_stop stop_instance exists set
  stop_agrees now request = elim (Bool-cases (request.instance_id == "")) [
    | inl empty ↦ rw (handle_stop, stop_instance, ControlPlane.stop_instance, empty) (refl, refl)
    | inr named ↦ elim (Option-cases (HashMap.get cp.instances request.instance_id)) [
      | inl e ↦
          rw (handle_stop, stop_instance, ControlPlane.stop_instance, set, exists, named, e)
            (refl, refl)
      | inr (m, e) ↦
          rw
            (
              handle_stop,
              stop_instance,
              ControlPlane.stop_instance,
              exists,
              named,
              e,
              set_known cp.instances request.instance_id m e,
            )
            (refl, refl)
    ]
  ]

  query_agrees :
      (now : DateTime) (request : QueryInstanceRequest)
      → value_of (handle_query now (beside cp) request)
        ≡ value_of (ControlPlane.query_instance now cp request)
  unfolding ControlPlane.query_instance handle_query query_instance look_up
  query_agrees now request = elim (Bool-cases (request.instance_id == "")) [
    | inl empty ↦ rw (handle_query, query_instance, ControlPlane.query_instance, empty) refl
    | inr named ↦ elim (Option-cases (HashMap.get cp.instances request.instance_id)) [
      | inl e ↦
          rw (handle_query, query_instance, look_up, ControlPlane.query_instance, named, e) refl
      | inr (m, e) ↦
          rw (handle_query, query_instance, look_up, ControlPlane.query_instance, named, e) refl
    ]
  ]

-- A call that both accounts of the instances serve, at its time.
pub data Call : Type 0 where
  starts : String → DateTime → StartInstanceRequest → Call
  stops : DateTime → StopInstanceRequest → Call
  queries : DateTime → QueryInstanceRequest → Call

pub data Outcome : Type 0 where
  started : Option String → Outcome
  stopped_it : Option (Unit {0}) → Outcome
  queried : Option InstanceStatusResponse → Outcome

-- the module of a start is within the limit that the service alone sets
abbrev pub IsSmall : Call → Type 0
IsSmall (starts uuid now request) = length request.module_bytes ≤ size_limit
IsSmall _ = Unit

module _ (md5 : List ℕ → String) where
  abbrev pub by_control_plane : ControlPlane → Call → Outcome × ControlPlane
  by_control_plane cp (starts uuid now request) =
      let answer = ControlPlane.start_instance md5 uuid now cp request in
      (started (value_of answer.0), answer.1)
  by_control_plane cp (stops now request) =
      let answer = ControlPlane.stop_instance now cp request in
      (stopped_it (value_of answer.0), answer.1)
  by_control_plane cp (queries now request) =
      (queried (value_of (ControlPlane.query_instance now cp request)), cp)

  abbrev pub by_controller : InstanceService in_memory → Call → Outcome × InstanceService in_memory
  by_controller s (starts uuid now request) =
      let answer = handle_start md5 uuid now s request in (started (value_of answer.0), answer.1)
  by_controller s (stops now request) =
      let answer = handle_stop now s request in (stopped_it (value_of answer.0), answer.1)
  by_controller s (queries now request) = (queried (value_of (handle_query now s request)), s)

  abbrev pub control_plane_run : ControlPlane → List Call → List Outcome × ControlPlane
  control_plane_run cp [] = ([], cp)
  control_plane_run cp (c ∷ cs) =
      let rest = control_plane_run (by_control_plane cp c).1 cs in
      ((by_control_plane cp c).0 ∷ rest.0, rest.1)

  abbrev pub controller_run :
      InstanceService in_memory → List Call → List Outcome × InstanceService in_memory
  controller_run s [] = ([], s)
  controller_run s (c ∷ cs) =
      let rest = controller_run (by_controller s c).1 cs in ((by_controller s c).0 ∷ rest.0, rest.1)

  call_agrees :
      (cp : ControlPlane) (c : Call)
      → IsSmall c
      → by_controller (beside cp) c ≡ ((by_control_plane cp c).0, beside (by_control_plane cp c).1)
  call_agrees cp (starts uuid now request) small =
      let p = start_agrees cp md5 uuid now request small in rw (p.0, p.1) refl
  call_agrees cp (stops now request) small =
      let p = stop_agrees cp now request in rw (p.0, p.1) refl
  call_agrees cp (queries now request) small = rw (query_agrees cp now request) refl

  -- The instance controller over the in-memory repository and the control plane, begun with the same
  -- instances, give the same outcomes to any sequence of starts, stops and queries whose modules
  -- keep to the limit of 10 MB: they succeed at the same calls with the same values, and hold the
  -- same instances afterwards.
  pub controller_run-control_plane_run :
      (cs : List Call) (cp : ControlPlane)
      → All IsSmall cs
      → ((controller_run (beside cp) cs).0 ≡ (control_plane_run cp cs).0)
        × ((controller_run (beside cp) cs).1 ≡ beside (control_plane_run cp cs).1)
  controller_run-control_plane_run [] cp small = (refl, refl)
  controller_run-control_plane_run (c ∷ cs) cp small =
      let rest = controller_run-control_plane_run cs (by_control_plane cp c).1 small.1 in
      rw (call_agrees cp c small.0, rest.0, rest.1) (refl, refl)
