-- ===== src/Instances/Service.antt =====
-- `InstanceService` of features/instance_management/service/mod.rs and `InstanceController` of
-- features/instance_management/controller/mod.rs, over any repository.
use wasmatrix.Prelude.{
  ℕ, ◌*◌, String, true, false, none, some, List, Result, ok, err, ◌>>◌, fail_if, map_err, is_empty,
  length, ltb, ◌==◌, if◌then◌else◌,
}
use wasmatrix.Core.Wasm.{lacks_magic}
use wasmatrix.Core.Types.{
  DateTime, InstanceMetadata, new_metadata, InstanceStatus, stopped, StartInstanceRequest,
  StopInstanceRequest, QueryInstanceRequest, InstanceStatusResponse, ErrorResponse,
}
use wasmatrix.Shared.{
  ControlPlaneError, ControlPlaneResult, validation_error, resource_exhausted, instance_not_found,
  error_response,
}
use wasmatrix.Instances.Repository.{InstanceRepository}

pub record InstanceService (R : InstanceRepository) : Type 0 where
  pub repo : R.State
  pub node_id : String

abbrev pub size_limit : ℕ
size_limit = 10 * 1024 * 1024

unfoldable pub validate_wasm_module : List ℕ → ControlPlaneResult (Unit {0})
validate_wasm_module module_bytes =
    fail_if (is_empty module_bytes) (validation_error "Module bytes cannot be empty")
    >> fail_if (lacks_magic module_bytes) (validation_error "Invalid Wasm module format")
    >> fail_if (ltb size_limit (length module_bytes))
        (resource_exhausted "Module size exceeds 10MB limit")

abbrev pub empty_id : ControlPlaneError
empty_id = validation_error "Instance ID cannot be empty"

abbrev pub status_response : InstanceMetadata → InstanceStatusResponse
status_response metadata = record {
  instance_id = metadata.instance_id;
  status = metadata.status;
  node_id = metadata.node_id;
  created_at = metadata.created_at;
}

module _ {R : InstanceRepository} where
  abbrev pub set_repo : InstanceService R → R.State → InstanceService R
  set_repo s repo = record s { repo = repo }

  -- `now`, `uuid` and `md5` as in the control plane
  unfoldable pub start_instance :
      (List ℕ → String)
      → String
      → DateTime
      → InstanceService R
      → StartInstanceRequest
      → ControlPlaneResult String × InstanceService R
  unfolding new_metadata
  start_instance md5 uuid now s request = elim (validate_wasm_module request.module_bytes) [
    | err e ↦ (err e, s)
    | ok _ ↦
        let metadata = new_metadata uuid now s.node_id (md5 request.module_bytes) in
        let stored = R.create s.repo metadata in
        (stored.0 >> ok metadata.instance_id, set_repo s stored.1)
  ]

  -- the check for existence before the status is changed
  unfoldable pub update_status :
      InstanceService R
      → String
      → InstanceStatus
      → ControlPlaneResult (Unit {0}) × InstanceService R
  update_status s instance_id status = elim (R.exists s.repo instance_id) [
    | err e ↦ (err e, s)
    | ok false ↦ (err (instance_not_found instance_id), s)
    | ok true ↦
        let updated = R.update_status s.repo instance_id status in (updated.0, set_repo s updated.1)
  ]

  unfoldable pub stop_instance :
      InstanceService R → StopInstanceRequest → ControlPlaneResult (Unit {0}) × InstanceService R
  stop_instance s request =
      if request.instance_id == ""
      then (err empty_id, s)
      else elim (R.exists s.repo request.instance_id) [
        | err e ↦ (err e, s)
        | ok false ↦ (err (instance_not_found request.instance_id), s)
        | ok true ↦
            let updated = R.update_status s.repo request.instance_id stopped in
            (updated.0 >> ok tt, set_repo s updated.1)
      ]

  unfoldable pub query_instance :
      InstanceService R → QueryInstanceRequest → ControlPlaneResult InstanceStatusResponse
  query_instance s request =
      if request.instance_id == "" then err empty_id else elim (R.get s.repo request.instance_id) [
        | err e ↦ err e
        | ok (some metadata) ↦ ok (status_response metadata)
        | ok none ↦ err (instance_not_found request.instance_id)
      ]

  unfoldable pub list_instances : InstanceService R → ControlPlaneResult (List InstanceMetadata)
  list_instances s = R.list s.repo

  -- The methods of the controller: the service's, with the errors as responses.
  unfoldable pub handle_start :
      (List ℕ → String)
      → String
      → DateTime
      → InstanceService R
      → StartInstanceRequest
      → Result String ErrorResponse × InstanceService R
  handle_start md5 uuid now s request =
      let answer = start_instance md5 uuid now s request in
      (map_err (error_response now) answer.0, answer.1)

  unfoldable pub handle_stop :
      DateTime
      → InstanceService R
      → StopInstanceRequest
      → Result (Unit {0}) ErrorResponse × InstanceService R
  handle_stop now s request =
      let answer = stop_instance s request in (map_err (error_response now) answer.0, answer.1)

  unfoldable pub handle_query :
      DateTime
      → InstanceService R
      → QueryInstanceRequest
      → Result InstanceStatusResponse ErrorResponse
  handle_query now s request = map_err (error_response now) (query_instance s request)

  unfoldable pub handle_list :
      DateTime → InstanceService R → Result (List InstanceMetadata) ErrorResponse
  handle_list now s = map_err (error_response now) (list_instances s)
