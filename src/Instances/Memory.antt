-- ===== src/Instances/Memory.antt =====
-- `InMemoryInstanceRepository` of features/instance_management/repo/mod.rs. A lock that a panic has
-- poisoned is left out: the methods have no other error than a missing instance.
use wasmatrix.Prelude.{
  String, Bool, ◌≡◌, refl, Option, List, ok, err, arith, ◌==◌, eq_iff, if◌then◌else◌, Option-cases,
  inl, inr,
}
use mathlib.Core.Option
use wasmatrix.HashMap
use wasmatrix.HashMap.{HashMap, get-insert, get-modify, get-remove}
use wasmatrix.Core.Types.{InstanceMetadata, InstanceStatus}
use wasmatrix.Shared.{ControlPlaneResult, instance_not_found}
use wasmatrix.Instances.Repository.{InstanceRepository, IsLawful, with_status}

abbrev Storage : Type 0
Storage = HashMap InstanceMetadata

unfoldable pub create : Storage → InstanceMetadata → ControlPlaneResult (Unit {0}) × Storage
create storage metadata = (ok tt, HashMap.insert storage metadata.instance_id metadata)

unfoldable pub get : Storage → String → ControlPlaneResult (Option InstanceMetadata)
get storage instance_id = ok (HashMap.get storage instance_id)

unfoldable pub update_status :
    Storage → String → InstanceStatus → ControlPlaneResult (Unit {0}) × Storage
update_status storage instance_id status =
    if HashMap.contains_key storage instance_id
    then (ok tt, HashMap.modify storage instance_id (with_status status))
    else (err (instance_not_found instance_id), storage)

unfoldable pub delete : Storage → String → ControlPlaneResult Bool × Storage
delete storage instance_id =
    (ok (HashMap.contains_key storage instance_id), HashMap.remove storage instance_id)

unfoldable pub list : Storage → ControlPlaneResult (List InstanceMetadata)
list storage = ok (HashMap.values storage)

unfoldable pub exists : Storage → String → ControlPlaneResult Bool
exists storage instance_id = ok (HashMap.contains_key storage instance_id)

abbrev pub in_memory : InstanceRepository
in_memory = record {
  State = Storage;
  create = create;
  get = get;
  update_status = update_status;
  delete = delete;
  list = list;
  exists = exists;
}

find-update :
    (s : Storage) (id : String) (status : InstanceStatus) (other : String)
    → HashMap.get (update_status s id status).1 other ≡ (
        if id == other
        then Option.map (with_status status) (HashMap.get s other)
        else HashMap.get s other)
unfolding update_status
find-update s id status other = elim (Option-cases (HashMap.get s id)) [
  | inl e ↦ ground (arith, e, eq_iff id other, get-modify s id other (with_status status))
  | inr (m, e) ↦ ground (arith, e, get-modify s id other (with_status status))
]

-- The storage behaves as the trait's clients expect, with what `get` finds as what it keeps.
pub in_memory-IsLawful : IsLawful in_memory HashMap.get
unfolding create get update_status delete exists
in_memory-IsLawful = record {
  get_lem = λ s id. refl;
  exists_lem = λ s id. refl;
  create_ok = λ s m. refl;
  find-create = λ s m id. get-insert s m.instance_id id m;
  update_status_lem = λ s id status. ground arith;
  find-update_status = find-update;
  delete_lem = λ s id. refl;
  find-delete = λ s id other. get-remove s id other;
}
