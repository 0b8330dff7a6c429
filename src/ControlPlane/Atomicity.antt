-- ===== src/ControlPlane/Atomicity.antt =====
-- A call of the control plane that fails has changed nothing.
use wasmatrix.Prelude.{ℕ, ◌≡◌, String, false, List, arith}
use wasmatrix.ControlPlane.{
  ControlPlane, start_instance, stop_instance, assign_capability, revoke_capability,
  update_instance_status, record_instance_crash, handle_crash_recovery,
}
use wasmatrix.ControlPlane.Calls.{
  Call, starts, stops, assigns, revokes, restores, updates, crashes, recovers, step,
}

-- Whatever the call, if it fails then the state after it is the state before it.
pub failed_call_changes_nothing :
    (md5 : List ℕ → String) (cp : ControlPlane) (c : Call)
    → (step md5 cp c).0 ≡ false
    → (step md5 cp c).1 ≡ cp
failed_call_changes_nothing md5 cp (starts uuid now request) h =
    unfold start_instance in ground arith
failed_call_changes_nothing md5 cp (stops now request) h = unfold stop_instance in ground arith
failed_call_changes_nothing md5 cp (assigns now a) h = unfold assign_capability in ground arith
failed_call_changes_nothing md5 cp (revokes now i c) h = unfold revoke_capability in ground arith
failed_call_changes_nothing md5 cp (restores m l) h = ground arith
failed_call_changes_nothing md5 cp (updates i s) h = unfold update_instance_status in ground arith
failed_call_changes_nothing md5 cp (crashes now i e) h =
    unfold record_instance_crash in ground arith
failed_call_changes_nothing md5 cp (recovers now i) h = unfold handle_crash_recovery in ground arith
