-- ===== src/ControlPlane/Calls.antt =====
-- The calls that change a `ControlPlane`, and runs of them.
use wasmatrix.Prelude.{ℕ, String, Bool, true, List, [], ◌∷◌, is_ok}
use wasmatrix.Core.Types.{
  DateTime, CapabilityAssignment, InstanceMetadata, InstanceStatus, StartInstanceRequest,
  StopInstanceRequest,
}
use wasmatrix.ControlPlane.{
  ControlPlane, start_instance, stop_instance, assign_capability, revoke_capability,
  restore_instance_state, update_instance_status, record_instance_crash, handle_crash_recovery,
}

-- Each call at its time; a start comes with the identifier that it draws.
pub data Call : Type 0 where
  starts : String → DateTime → StartInstanceRequest → Call
  stops : DateTime → StopInstanceRequest → Call
  assigns : DateTime → CapabilityAssignment → Call
  revokes : DateTime → String → String → Call
  restores : InstanceMetadata → List CapabilityAssignment → Call
  updates : String → InstanceStatus → Call
  crashes : DateTime → String → String → Call
  recovers : DateTime → String → Call

module _ (md5 : List ℕ → String) where
  -- whether the call succeeds, and the state after it
  abbrev pub step : ControlPlane → Call → Bool × ControlPlane
  step cp (starts uuid now request) =
      (is_ok (start_instance md5 uuid now cp request).0, (start_instance md5 uuid now cp request).1)
  step cp (stops now request) =
      (is_ok (stop_instance now cp request).0, (stop_instance now cp request).1)
  step cp (assigns now a) = (is_ok (assign_capability now cp a).0, (assign_capability now cp a).1)
  step cp (revokes now i c) =
      (is_ok (revoke_capability now cp i c).0, (revoke_capability now cp i c).1)
  step cp (restores metadata capabilities) = (true, restore_instance_state cp metadata capabilities)
  step cp (updates i status) =
      (is_ok (update_instance_status cp i status).0, (update_instance_status cp i status).1)
  step cp (crashes now i error) =
      (is_ok (record_instance_crash now cp i error).0, (record_instance_crash now cp i error).1)
  step cp (recovers now i) =
      (is_ok (handle_crash_recovery now cp i).0, (handle_crash_recovery now cp i).1)

  abbrev pub run : ControlPlane → List Call → ControlPlane
  run cp [] = cp
  run cp (c ∷ cs) = run (step cp c).1 cs
