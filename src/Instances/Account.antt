-- ===== src/Instances/Account.antt =====
-- What the service promises, whichever repository it works on: an account of one instance at most
-- for each identifier.
use wasmatrix.Prelude.{
  ℕ, String, true, false, ◌≡◌, refl, Option, none, some, List, [], ◌∷◌, ok, err, ◌>>=◌, ◌>>◌, arith,
  ◌==◌, eq_iff, if◌then◌else◌, Result-cases, Bool-cases, Option-cases, inl, inr,
}
use mathlib.Core.Option
use mathlib.Core.Path.{subst}
use wasmatrix.Core.Types.{
  DateTime, InstanceMetadata, new_metadata, InstanceStatus, stopped, StartInstanceRequest,
  StopInstanceRequest, QueryInstanceRequest, InstanceStatusResponse,
}
use wasmatrix.Shared.{ControlPlaneResult, instance_not_found}
use wasmatrix.Instances.Repository.{InstanceRepository, IsLawful, with_status}
use wasmatrix.Instances.Service.{
  InstanceService, validate_wasm_module, empty_id, status_response, start_instance, update_status,
  stop_instance, query_instance,
}

pub data Request : Type 0 where
  start : String → DateTime → StartInstanceRequest → Request
  stop : StopInstanceRequest → Request
  query : QueryInstanceRequest → Request
  update : String → InstanceStatus → Request

pub data Answer : Type 0 where
  started : String → Answer
  done : Answer
  status_of : InstanceStatusResponse → Answer

abbrev pub Account : Type 0
Account = String → Option InstanceMetadata

abbrev known : Account → String → ControlPlaneResult InstanceMetadata
known a id = elim (a id) [ none ↦ err (instance_not_found id) | some m ↦ ok m ]

-- the account with the status of an instance changed
abbrev marked : Account → String → InstanceStatus → Account
marked a id status =
    λ other. if id == other then Option.map (with_status status) (a other) else a other

module _ (md5 : List ℕ → String) (node_id : String) where
  -- the answer that the account gives, and the account afterwards
  abbrev pub promised : Account → Request → ControlPlaneResult Answer × Account
  promised a (start uuid now request) = elim (validate_wasm_module request.module_bytes) [
    | err e ↦ (err e, a)
    | ok _ ↦ (
      ok (started uuid),
      λ other.
          if uuid == other
          then some (new_metadata uuid now node_id (md5 request.module_bytes))
          else a other,
    )
  ]
  promised a (stop request) =
      if request.instance_id == ""
      then (err empty_id, a)
      else (known a request.instance_id >> ok done, marked a request.instance_id stopped)
  promised a (query request) =
      if request.instance_id == ""
      then (err empty_id, a)
      else (known a request.instance_id >>= λ m. ok (status_of (status_response m)), a)
  promised a (update id status) = (known a id >> ok done, marked a id status)

  abbrev pub promised_run : Account → List Request → List (ControlPlaneResult Answer) × Account
  promised_run a [] = ([], a)
  promised_run a (r ∷ rs) =
      let rest = promised_run (promised a r).1 rs in ((promised a r).0 ∷ rest.0, rest.1)

module _ (md5 : List ℕ → String) {R : InstanceRepository} where
  abbrev pub serve : InstanceService R → Request → ControlPlaneResult Answer × InstanceService R
  serve s (start uuid now request) =
      let answer = start_instance md5 uuid now s request in
      (answer.0 >>= λ id. ok (started id), answer.1)
  serve s (stop request) = let answer = stop_instance s request in (answer.0 >> ok done, answer.1)
  serve s (query request) = (query_instance s request >>= λ r. ok (status_of r), s)
  serve s (update id status) =
      let answer = update_status s id status in (answer.0 >> ok done, answer.1)

  abbrev pub serve_run :
      InstanceService R → List Request → List (ControlPlaneResult Answer) × InstanceService R
  serve_run s [] = ([], s)
  serve_run s (r ∷ rs) = let rest = serve_run (serve s r).1 rs in ((serve s r).0 ∷ rest.0, rest.1)

module _ {R : InstanceRepository} where
  -- no request moves the service to another node
  start_instance-node_id :
      (md5 : List ℕ → String) (uuid : String) (now : DateTime) (s : InstanceService R)
      → (request : StartInstanceRequest)
      → (start_instance md5 uuid now s request).1.node_id ≡ s.node_id
  unfolding start_instance
  start_instance-node_id md5 uuid now s request =
      elim (Result-cases (validate_wasm_module request.module_bytes)) [
        | inl (u, e) ↦ rw (start_instance, e) refl
        | inr (x, e) ↦ rw (start_instance, e) refl
      ]

  update_status-node_id :
      (s : InstanceService R) (id : String) (status : InstanceStatus)
      → (update_status s id status).1.node_id ≡ s.node_id
  unfolding update_status
  update_status-node_id s id status = ground arith

  stop_instance-node_id :
      (s : InstanceService R) (request : StopInstanceRequest)
      → (stop_instance s request).1.node_id ≡ s.node_id
  unfolding stop_instance
  stop_instance-node_id s request = ground arith

module _ {R : InstanceRepository} {find : R.State → String → Option InstanceMetadata}
    (lawful : IsLawful R find) where
  -- the account is what the repository keeps
  abbrev pub IsAccount : Account → InstanceService R → Type 0
  IsAccount a s = (id : String) → a id ≡ find s.repo id

  find-update :
      (s : InstanceService R) (id : String) (status : InstanceStatus) (a : Account)
      → IsAccount a s
      → (other : String)
      → marked a id status other ≡ find (R.update_status s.repo id status).1 other
  find-update s id status a h other =
      rw (lawful.find-update_status s.repo id status other, h other) refl

  -- a change of status that first looks whether the instance exists
  found :
      (s : InstanceService R) (id : String) (m : InstanceMetadata)
      → find s.repo id ≡ some m
      → (status : InstanceStatus)
      → (R.exists s.repo id ≡ ok true) × ((R.update_status s.repo id status).0 ≡ ok tt)
  found s id m e status = (
    rw (lawful.exists_lem s.repo id, e) refl,
    rw (lawful.update_status_lem s.repo id status, e) refl,
  )

  missing :
      (s : InstanceService R) (id : String)
      → find s.repo id ≡ none
      → (R.exists s.repo id ≡ ok false) × (R.get s.repo id ≡ ok none)
  missing s id e = (rw (lawful.exists_lem s.repo id, e) refl, rw (lawful.get_lem s.repo id, e) refl)

  -- marking an instance that is not there changes nothing
  marked_missing :
      (s : InstanceService R) (a : Account)
      → IsAccount a s
      → (id : String) (status : InstanceStatus) → find s.repo id ≡ none
      → (other : String) → marked a id status other ≡ find s.repo other
  marked_missing s a h id status e other = ground (arith, e, h other, eq_iff id other)

  update_status-promised :
      (s : InstanceService R) (a : Account)
      → IsAccount a s
      → (md5 : List ℕ → String) (id : String) (status : InstanceStatus)
      → ((serve md5 s (update id status)).0 ≡ (promised md5 s.node_id a (update id status)).0)
        × IsAccount
            (promised md5 s.node_id a (update id status)).1
            (serve md5 s (update id status)).1
  unfolding update_status
  update_status-promised s a h md5 id status = elim (Option-cases (find s.repo id)) [
    | inl e ↦
        rw (update_status, known, (missing s id e).0, h id, e)
          (refl, marked_missing s a h id status e)
    | inr (m, e) ↦
        rw (update_status, known, (found s id m e status).0, (found s id m e status).1, h id, e)
          (refl, find-update s id status a h)
  ]

  stop_instance-promised :
      (s : InstanceService R) (a : Account)
      → IsAccount a s
      → (md5 : List ℕ → String) (request : StopInstanceRequest)
      → ((serve md5 s (stop request)).0 ≡ (promised md5 s.node_id a (stop request)).0)
        × IsAccount (promised md5 s.node_id a (stop request)).1 (serve md5 s (stop request)).1
  unfolding stop_instance
  stop_instance-promised s a h md5 request =
      let id = request.instance_id in
      elim (Bool-cases (request.instance_id == "")) [
        | inl empty ↦ rw (stop_instance, empty) (refl, h)
        | inr named ↦ elim (Option-cases (find s.repo id)) [
          | inl e ↦
              rw (stop_instance, known, named, (missing s id e).0, h id, e)
                (refl, marked_missing s a h id stopped e)
          | inr (m, e) ↦
              rw
                (
                  stop_instance,
                  known,
                  named,
                  (found s id m e stopped).0,
                  (found s id m e stopped).1,
                  h id,
                  e,
                )
                (refl, find-update s id stopped a h)
        ]
      ]

  query_instance-promised :
      (s : InstanceService R) (a : Account)
      → IsAccount a s
      → (md5 : List ℕ → String) (request : QueryInstanceRequest)
      → (serve md5 s (query request)).0 ≡ (promised md5 s.node_id a (query request)).0
  unfolding query_instance
  query_instance-promised s a h md5 request =
      let id = request.instance_id in
      elim (Bool-cases (request.instance_id == "")) [
        | inl empty ↦ rw (query_instance, empty) refl
        | inr named ↦ elim (Option-cases (find s.repo id)) [
          | inl e ↦ rw (query_instance, known, named, (missing s id e).1, h id, e) refl
          | inr (m, e) ↦ rw (query_instance, known, named, lawful.get_lem s.repo id, h id, e) refl
        ]
      ]

  start_instance-promised :
      (s : InstanceService R) (a : Account)
      → IsAccount a s
      → (md5 : List ℕ → String) (uuid : String) (now : DateTime) (request : StartInstanceRequest)
      → let r = start uuid now request in
        ((serve md5 s r).0 ≡ (promised md5 s.node_id a r).0)
        × IsAccount (promised md5 s.node_id a r).1 (serve md5 s r).1
  unfolding start_instance new_metadata
  start_instance-promised s a h md5 uuid now request =
      elim (Result-cases (validate_wasm_module request.module_bytes)) [
        | inl (u, e) ↦
            let m = new_metadata uuid now s.node_id (md5 request.module_bytes) in
            rw (start_instance, promised, e, lawful.create_ok s.repo m)
              (refl, λ other. rw (lawful.find-create s.repo m other, h other) refl)
        | inr (x, e) ↦ rw (start_instance, promised, e) (refl, h)
      ]

  serve-promised :
      (s : InstanceService R) (a : Account)
      → IsAccount a s
      → (md5 : List ℕ → String) (r : Request)
      → ((serve md5 s r).0 ≡ (promised md5 s.node_id a r).0)
        × IsAccount (promised md5 s.node_id a r).1 (serve md5 s r).1
        × ((serve md5 s r).1.node_id ≡ s.node_id)
  serve-promised s a h md5 (start uuid now request) =
      let step = start_instance-promised s a h md5 uuid now request in
      (step.0, step.1, start_instance-node_id md5 uuid now s request)
  serve-promised s a h md5 (stop request) =
      let step = stop_instance-promised s a h md5 request in
      (step.0, step.1, stop_instance-node_id s request)
  serve-promised s a h md5 (query request) =
      (query_instance-promised s a h md5 request, ground (arith, h), refl)
  serve-promised s a h md5 (update id status) =
      let step = update_status-promised s a h md5 id status in
      (step.0, step.1, update_status-node_id s id status)

  -- Over any lawful repository, the answers of the service to any sequence of requests are the ones
  -- that an account of one instance at most for each identifier gives, and the repository keeps
  -- that account afterwards.
  pub serve_run-promised_run :
      (md5 : List ℕ → String) (rs : List Request) (s : InstanceService R) (a : Account)
      → IsAccount a s
      → ((serve_run md5 s rs).0 ≡ (promised_run md5 s.node_id a rs).0)
        × IsAccount (promised_run md5 s.node_id a rs).1 (serve_run md5 s rs).1
  serve_run-promised_run md5 [] s a h = (refl, h)
  serve_run-promised_run md5 (r ∷ rs) s a h =
      let one = serve-promised s a h md5 r in
      let after = (serve md5 s r).1 in
      let account = (promised md5 s.node_id a r).1 in
      let rest =
        subst
          (λ n.
            ((serve_run md5 after rs).0 ≡ (promised_run md5 n account rs).0)
            × IsAccount (promised_run md5 n account rs).1 (serve_run md5 after rs).1)
          one.2 (serve_run-promised_run md5 rs after account one.1) in
      (rw (one.0, rest.0) refl, rest.1)
