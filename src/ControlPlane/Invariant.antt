-- ===== src/ControlPlane/Invariant.antt =====
-- The invariant of `ControlPlane`.
use wasmatrix.Prelude.{
  ◌≡◌, ◌≢◌, refl, String, Bool, true, false, none, some, List, [], ◌∷◌, ◌++◌, is_empty, arith, ◌==◌,
  eq_iff, eq_refl, not, if_intro, if◌then◌else◌, Option-cases, Bool-cases, inl, inr, Option,
  unwrap_or, ℕ,
}
use wasmatrix.HashMap
use wasmatrix.HashMap.{HashMap, get-insert, get-modify, get-remove, get-push_at}
use wasmatrix.Core.Wasm.{lacks_magic}
use wasmatrix.Core.Types.{
  stopped, starting, crashed, DateTime, CapabilityAssignment, InstanceMetadata, new_metadata,
  InstanceStatus,
}
use wasmatrix.ControlPlane.{
  ControlPlane, new, set_status, start_instance, stop_instance, assign_capability,
  revoke_capability, restore_instance_state, update_instance_status, record_instance_crash,
  handle_crash_recovery, keep_others,
}
use wasmatrix.ControlPlane.Calls.{
  Call, starts, stops, assigns, revokes, restores, updates, crashes, recovers, step, run,
}

-- the metadata that may stand under a key
abbrev pub IsNamed : String → Option InstanceMetadata → Type 0
IsNamed id none = Unit
IsNamed id (some m) = m.instance_id ≡ id

-- Instances stand under their own identifiers; only known instances have assignments, never an
-- empty list of them; only known instances are marked as crashed.
pub record IsConsistent (cp : ControlPlane) : Type 0 where
  pub named : (id : String) → IsNamed id (HashMap.get cp.instances id)
  pub held :
      (id : String)
      → HashMap.contains_key cp.capabilities id ≡ true
      → HashMap.contains_key cp.instances id ≡ true
  pub filled : (id : String) → HashMap.get cp.capabilities id ≢ some []
  pub marked :
      (id : String)
      → HashMap.contains_key cp.crashed_instances id ≡ true
      → HashMap.contains_key cp.instances id ≡ true

new-IsConsistent : (node_id : String) → IsConsistent (new node_id)
new-IsConsistent node_id = record {
  named = λ id. ground (arith, HashMap.get-empty {V = InstanceMetadata} id);
  held = λ id h. ground (arith, HashMap.get-empty {V = List CapabilityAssignment} id);
  filled = λ id h. ground (arith, HashMap.get-empty {V = List CapabilityAssignment} id);
  marked = λ id h. ground (arith, HashMap.get-empty {V = DateTime} id);
}

module _ (cp : ControlPlane) (v : IsConsistent cp) where
  insert-IsConsistent :
      (m : InstanceMetadata)
      → IsConsistent (record cp { instances = HashMap.insert cp.instances m.instance_id m })
  insert-IsConsistent m = record {
    named = λ id.
        ground
          (arith, v.named id, get-insert cp.instances m.instance_id id m, eq_iff m.instance_id id);
    held = λ id h. ground (arith, v.held id h, get-insert cp.instances m.instance_id id m);
    filled = v.filled;
    marked = λ id h. ground (arith, v.marked id h, get-insert cp.instances m.instance_id id m);
  }

  set_status-IsConsistent :
      (i : String) (status : InstanceStatus)
      → IsConsistent (record cp { instances = HashMap.modify cp.instances i (set_status status) })
  set_status-IsConsistent i status = record {
    named = λ id.
        ground (arith, v.named id, get-modify cp.instances i id (set_status status), eq_iff i id);
    held = λ id h. ground (arith, v.held id h, get-modify cp.instances i id (set_status status));
    filled = v.filled;
    marked =
        λ id h. ground (arith, v.marked id h, get-modify cp.instances i id (set_status status));
  }

  hold-IsConsistent :
      (i : String) (l : List CapabilityAssignment)
      → HashMap.contains_key cp.instances i ≡ true
      → is_empty l ≡ false
      → IsConsistent (record cp { capabilities = HashMap.insert cp.capabilities i l })
  hold-IsConsistent i l known nonempty = record {
    named = v.named;
    held = λ id h. ground (arith, v.held id, get-insert cp.capabilities i id l, eq_iff i id);
    filled = λ id h. ground (arith, v.filled id, get-insert cp.capabilities i id l);
    marked = v.marked;
  }

  drop-IsConsistent :
      (i : String) → IsConsistent (record cp { capabilities = HashMap.remove cp.capabilities i })
  drop-IsConsistent i = record {
    named = v.named;
    held = λ id h. ground (arith, v.held id, get-remove cp.capabilities i id);
    filled = λ id h. ground (arith, v.filled id, get-remove cp.capabilities i id);
    marked = v.marked;
  }

  mark-IsConsistent :
      (i : String) (now : DateTime)
      → HashMap.contains_key cp.instances i ≡ true
      → IsConsistent (record cp { crashed_instances = HashMap.insert cp.crashed_instances i now })
  mark-IsConsistent i now known = record {
    named = v.named;
    held = v.held;
    filled = v.filled;
    marked =
        λ id h. ground (arith, v.marked id, get-insert cp.crashed_instances i id now, eq_iff i id);
  }

  unmark-IsConsistent :
      (i : String)
      → IsConsistent (record cp { crashed_instances = HashMap.remove cp.crashed_instances i })
  unmark-IsConsistent i = record {
    named = v.named;
    held = v.held;
    filled = v.filled;
    marked = λ id h. ground (arith, v.marked id, get-remove cp.crashed_instances i id);
  }

  push-IsConsistent :
      (a : CapabilityAssignment)
      → HashMap.contains_key cp.instances a.instance_id ≡ true
      → IsConsistent (record cp { capabilities = HashMap.push_at cp.capabilities a.instance_id a })
  push-IsConsistent a known = record {
    named = v.named;
    held = λ id h.
        ground (
          arith,
          v.held id,
          get-push_at cp.capabilities a.instance_id id a,
          eq_iff a.instance_id id,
        );
    filled = λ id h. elim (Bool-cases (a.instance_id == id)) [
      | inl e ↦
          append-ne-nil (unwrap_or (HashMap.get cp.capabilities a.instance_id) []) a
            (ground (arith, get-push_at cp.capabilities a.instance_id id a))
      | inr e ↦ v.filled id (ground (arith, get-push_at cp.capabilities a.instance_id id a))
    ];
    marked = v.marked;
  }
    where
      append-ne-nil :
          (l : List CapabilityAssignment) (a : CapabilityAssignment) → l ++ (a ∷ []) ≢ []
      append-ne-nil [] a e = cc
      append-ne-nil (x ∷ l) a e = cc

  revoked-IsConsistent :
      (i c : String) (l : List CapabilityAssignment)
      → HashMap.get cp.capabilities i ≡ some l
      → IsConsistent (record cp {
        capabilities =
            if is_empty (keep_others c l)
            then HashMap.remove (HashMap.modify cp.capabilities i (keep_others c)) i
            else HashMap.modify cp.capabilities i (keep_others c);
      })
  revoked-IsConsistent i c l e = record {
    named = v.named;
    held = λ id h. ground (
      arith,
      v.held id,
      get-modify cp.capabilities i id (keep_others c),
      get-remove (HashMap.modify cp.capabilities i (keep_others c)) i id,
    );
    filled = λ id h. ground (
      arith,
      v.filled id,
      get-modify cp.capabilities i id (keep_others c),
      get-remove (HashMap.modify cp.capabilities i (keep_others c)) i id,
      eq_iff i id,
    );
    marked = v.marked;
  }

either-IsConsistent :
    {A : Type 0} (b : Bool) (x y : A × ControlPlane)
    → (b ≡ true → IsConsistent x.1)
    → (b ≡ false → IsConsistent y.1)
    → IsConsistent (if b then x else y).1
either-IsConsistent true x y hx hy = hx refl
either-IsConsistent false x y hx hy = hy refl

-- Every call, failing or not, keeps the invariant.
pub step-IsConsistent :
    (md5 : List ℕ → String) (cp : ControlPlane) (c : Call)
    → IsConsistent cp
    → IsConsistent (step md5 cp c).1
unfolding new_metadata
step-IsConsistent md5 cp (starts uuid now request) v =
    unfold start_instance in
    either-IsConsistent (is_empty request.module_bytes) _ _ (λ _. v)
      (λ _.
        either-IsConsistent (lacks_magic request.module_bytes) _ _ (λ _. v)
          (λ _.
            if_intro IsConsistent (is_empty request.capabilities) _ _ (λ _. inserted)
              (λ e. hold-IsConsistent _ inserted uuid request.capabilities known e)))
  where
    metadata : InstanceMetadata
    metadata = new_metadata uuid now cp.node_id (md5 request.module_bytes)

    inserted : IsConsistent (record cp { instances = HashMap.insert cp.instances uuid metadata })
    inserted = insert-IsConsistent cp v metadata

    known : HashMap.contains_key (HashMap.insert cp.instances uuid metadata) uuid ≡ true
    known = ground (arith, get-insert cp.instances uuid uuid metadata, eq_refl uuid)
step-IsConsistent md5 cp (stops now request) v =
    unfold stop_instance in
    either-IsConsistent (request.instance_id == "") _ _ (λ _. v)
      (λ _.
        either-IsConsistent (HashMap.contains_key cp.instances request.instance_id) _ _
          (λ _. set_status-IsConsistent cp v request.instance_id stopped) (λ _. v))
step-IsConsistent md5 cp (assigns now a) v =
    unfold assign_capability in
    either-IsConsistent (not (HashMap.contains_key cp.instances a.instance_id)) _ _ (λ _. v)
      (λ known.
        either-IsConsistent (a.capability_id == "") _ _ (λ _. v)
          (λ _.
            either-IsConsistent (is_empty a.permissions) _ _ (λ _. v)
              (λ _. push-IsConsistent cp v a (ground arith))))
step-IsConsistent md5 cp (revokes now i c) v =
    unfold revoke_capability in
    either-IsConsistent (i == "") _ _ (λ _. v)
      (λ _.
        either-IsConsistent (c == "") _ _ (λ _. v)
          (λ _. elim (Option-cases (HashMap.get cp.capabilities i)) [
            | inl e ↦ rw e v
            | inr (l, e) ↦ rw e (revoked-IsConsistent cp v i c l e)
          ]))
step-IsConsistent md5 cp (restores m l) v =
    unfold restore_instance_state in
    if_intro
      (λ (caps : HashMap (List CapabilityAssignment)). IsConsistent (record cp {
        instances = HashMap.insert cp.instances m.instance_id m;
        capabilities = caps;
      }))
      (is_empty l) _ _ (λ _. drop-IsConsistent _ (insert-IsConsistent cp v m) m.instance_id)
      (λ e.
        hold-IsConsistent _ (insert-IsConsistent cp v m) m.instance_id l
          (ground
            (arith, get-insert cp.instances m.instance_id m.instance_id m, eq_refl m.instance_id))
          e)
step-IsConsistent md5 cp (updates i status) v =
    unfold update_instance_status in
    either-IsConsistent (HashMap.contains_key cp.instances i) _ _
      (λ _. set_status-IsConsistent cp v i status) (λ _. v)
step-IsConsistent md5 cp (crashes now i error) v =
    unfold record_instance_crash in
    either-IsConsistent (not (HashMap.contains_key cp.instances i)) _ _ (λ _. v)
      (λ known. record {
        named = (set_status-IsConsistent cp v i crashed).named;
        held = (set_status-IsConsistent cp v i crashed).held;
        filled = v.filled;
        marked =
            (mark-IsConsistent _ (set_status-IsConsistent cp v i crashed) i now
              (ground (arith, get-modify cp.instances i i (set_status crashed)))).marked;
      })
step-IsConsistent md5 cp (recovers now i) v =
    unfold handle_crash_recovery in
    either-IsConsistent (not (HashMap.contains_key cp.instances i)) _ _ (λ _. v)
      (λ known. record {
        named = (set_status-IsConsistent cp v i starting).named;
        held = (set_status-IsConsistent cp v i starting).held;
        filled = v.filled;
        marked = (unmark-IsConsistent _ (set_status-IsConsistent cp v i starting) i).marked;
      })

run_from-IsConsistent :
    (md5 : List ℕ → String) (cp : ControlPlane) (cs : List Call)
    → IsConsistent cp
    → IsConsistent (run md5 cp cs)
run_from-IsConsistent md5 cp [] v = v
run_from-IsConsistent md5 cp (c ∷ cs) v =
    run_from-IsConsistent md5 (step md5 cp c).1 cs (step-IsConsistent md5 cp c v)

-- After any calls on a new control plane each instance stands under its own identifier, every
-- instance with assignments or a crash mark is known, and no entry of assignments is empty.
pub run-IsConsistent :
    (md5 : List ℕ → String) (node_id : String) (cs : List Call)
    → IsConsistent (run md5 (new node_id) cs)
run-IsConsistent md5 node_id cs =
    run_from-IsConsistent md5 (new node_id) cs (new-IsConsistent node_id)
