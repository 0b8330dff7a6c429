-- ===== src/Instances/Repository.antt =====
-- The trait `InstanceRepository` of features/instance_management/repo/mod.rs, as a record of its
-- methods over a state of its own, and what its clients rely on.
use wasmatrix.Prelude.{String, Bool, ◌≡◌, Option, none, some, List, ok, err, is_some}
use wasmatrix.Prelude.{◌==◌, if◌then◌else◌}
use mathlib.Core.Option
use wasmatrix.Core.Types.{InstanceMetadata, InstanceStatus}
use wasmatrix.Shared.{ControlPlaneResult, instance_not_found}

abbrev pub with_status : InstanceStatus → InstanceMetadata → InstanceMetadata
with_status status metadata = record metadata { status = status }

pub record InstanceRepository : Type 1 where
  pub State : Type 0
  pub create : State → InstanceMetadata → ControlPlaneResult (Unit {0}) × State
  pub get : State → String → ControlPlaneResult (Option InstanceMetadata)
  pub update_status : State → String → InstanceStatus → ControlPlaneResult (Unit {0}) × State
  pub delete : State → String → ControlPlaneResult Bool × State
  pub list : State → ControlPlaneResult (List InstanceMetadata)
  pub exists : State → String → ControlPlaneResult Bool

-- The repository keeps one instance at most for each identifier: `find` is what it keeps.
pub record IsLawful (R : InstanceRepository) (find : R.State → String → Option InstanceMetadata)
    : Type 0 where
  pub get_lem : (s : R.State) (id : String) → R.get s id ≡ ok (find s id)
  pub exists_lem : (s : R.State) (id : String) → R.exists s id ≡ ok (is_some (find s id))
  pub create_ok : (s : R.State) (m : InstanceMetadata) → (R.create s m).0 ≡ ok tt
  pub find-create :
      (s : R.State) (m : InstanceMetadata) (id : String)
      → find (R.create s m).1 id ≡ (if m.instance_id == id then some m else find s id)
  pub update_status_lem :
      (s : R.State) (id : String) (status : InstanceStatus)
      → (R.update_status s id status).0
        ≡ (if is_some (find s id) then ok tt else err (instance_not_found id))
  pub find-update_status :
      (s : R.State) (id : String) (status : InstanceStatus) (other : String)
      → find (R.update_status s id status).1 other
        ≡ (if id == other then Option.map (with_status status) (find s other) else find s other)
  pub delete_lem : (s : R.State) (id : String) → (R.delete s id).0 ≡ ok (is_some (find s id))
  pub find-delete :
      (s : R.State) (id other : String)
      → find (R.delete s id).1 other ≡ (if id == other then none else find s other)
