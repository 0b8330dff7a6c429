-- ===== src/Core/Capability/Invariant.antt =====
-- The invariant of `CapabilityRegistry`: what is stored under an instance was validated for it.
use wasmatrix.Prelude.{
  ◌≡◌, refl, String, true, false, none, some, List, [], ◌∷◌, ◌++◌, is_empty, All, All-append,
  All-retain, retain, all, contains, unwrap_or, arith, ◌==◌, eq_iff, ok, err, Result, Option-cases,
  Bool-cases, inl, inr, Option,
}
use wasmatrix.HashMap
use wasmatrix.HashMap.{HashMap, get-push_at, get-modify, get-remove, map_laws}
use mathlib.Core.Path.{subst, subst₂}
use wasmatrix.Core.Capability.Refinement.{Call, registers, assigns, revokes, clears, run}
use wasmatrix.Core.Capability.Revocation.{remaining, other_than, get-revoke_capability}
use wasmatrix.Core.Types.{CapabilityAssignment, CoreError, ProviderType, same_type}
use wasmatrix.Core.Capability.{
  CapabilityRegistry, new, register_provider, valid_permissions, check_permissions,
  validate_assignment, assign_capability, revoke_capability, clear_instance,
}

-- An assignment belongs to the instance, and has only permissions of its own provider type.
pub record IsSound (instance_id : String) (a : CapabilityAssignment) : Type 0 where
  pub scoped : a.instance_id ≡ instance_id
  pub permitted : all a.permissions (contains (valid_permissions a.provider_type)) ≡ true

-- Every list of assignments is nonempty and sound for the instance that it stands under.
abbrev pub IsSoundList : String → List CapabilityAssignment → Type 0
IsSoundList instance_id l = (is_empty l ≡ false) × All (IsSound instance_id) l

pub record IsValid (r : CapabilityRegistry) : Type 0 where
  pub sound :
      (id : String) (l : List CapabilityAssignment)
      → HashMap.get r.assignments id ≡ some l
      → IsSoundList id l

pub check_permissions-all :
    (t : ProviderType) (ps : List String)
    → check_permissions t ps ≡ ok tt
    → all ps (contains (valid_permissions t)) ≡ true
unfolding check_permissions all
check_permissions-all t [] h = refl
check_permissions-all t (p ∷ ps) h = ground (arith, check_permissions-all t ps)

same_type-eq : (s t : ProviderType) → same_type s t ≡ true → s ≡ t
same_type-eq s t h = ground arith

-- What a successful validation has checked.
pub validate_assignment-ok :
    (r : CapabilityRegistry) (a : CapabilityAssignment)
    → validate_assignment r a ≡ ok tt
    → (HashMap.get r.known_providers a.capability_id ≡ some a.provider_type)
      × (all a.permissions (contains (valid_permissions a.provider_type)) ≡ true)
unfolding validate_assignment
validate_assignment-ok r a h = elim (Option-cases (HashMap.get r.known_providers a.capability_id)) [
  | inl missing ↦ absurd (ground arith)
  | inr (t, found) ↦
      ground (arith, same_type-eq t a.provider_type, check_permissions-all t a.permissions)
]

new-IsValid : IsValid new
new-IsValid = record {
  sound = λ id l e. ground (arith, HashMap.get-empty {V = List CapabilityAssignment} id);
}

pub register_provider-IsValid :
    (r : CapabilityRegistry) (id : String) (t : ProviderType)
    → IsValid r
    → IsValid (register_provider r id t)
unfolding register_provider
register_provider-IsValid r id t v = record { sound = v.sound }

-- an entry of the map, where there may be none yet
old-IsSound :
    (r : CapabilityRegistry) (id : String)
    → IsValid r
    → All (IsSound id) (unwrap_or (HashMap.get r.assignments id) [])
old-IsSound r id v = elim (Option-cases (HashMap.get r.assignments id)) [
  | inl e ↦ rw e tt
  | inr (l, e) ↦ rw e (v.sound id l e).1
]

is_empty-append :
    (l : List CapabilityAssignment) (a : CapabilityAssignment) → is_empty (l ++ (a ∷ [])) ≡ false
is_empty-append [] a = refl
is_empty-append (x ∷ l) a = refl

module _ (r : CapabilityRegistry) (v : IsValid r) where
  stored-IsValid :
      (a : CapabilityAssignment)
      → IsSound a.instance_id a
      → IsValid (record r { assignments = HashMap.push_at r.assignments a.instance_id a })
  stored-IsValid a s = record {
    sound = λ id l e. elim (Bool-cases (a.instance_id == id)) [
      | inl p ↦ subst₂ IsSoundList ((eq_iff a.instance_id id).0 p) (pushed id l p e) (
        is_empty-append (old a.instance_id) a,
        All-append (IsSound a.instance_id) (old a.instance_id) (a ∷ [])
            (old-IsSound r a.instance_id v) (s, tt),
      )
      | inr p ↦ v.sound id l (ground (arith, get-push_at r.assignments a.instance_id id a))
    ];
  }
    where
      old : String → List CapabilityAssignment
      old id = unwrap_or (HashMap.get r.assignments id) []

      pushed :
          (id : String) (l : List CapabilityAssignment)
          → (a.instance_id == id) ≡ true
          → HashMap.get (HashMap.push_at r.assignments a.instance_id a) id ≡ some l
          → (old a.instance_id ++ (a ∷ [])) ≡ l
      pushed id l p e = ground (arith, get-push_at r.assignments a.instance_id id a)

  -- Whether it is stored or refused, an assignment leaves a valid registry.
  pub assign_capability-IsValid : (a : CapabilityAssignment) → IsValid (assign_capability r a).1
  unfolding assign_capability
  assign_capability-IsValid a = go (validate_assignment r a) refl
    where
      go :
          (x : Result (Unit {0}) CoreError)
          → validate_assignment r a ≡ x
          → IsValid (assign_capability r a).1
      go (ok u) e =
          rw (e, assign_capability)
            (stored-IsValid a
              (record { scoped = refl; permitted = (validate_assignment-ok r a e).1 }))
      go (err x) e = rw (e, assign_capability) v

  remaining-IsSoundList :
      (c id : String) (o : Option (List CapabilityAssignment)) (l : List CapabilityAssignment)
      → ((k : List CapabilityAssignment) → o ≡ some k → IsSoundList id k)
      → remaining c o ≡ some l
      → IsSoundList id l
  remaining-IsSoundList c id none l h e = absurd (ground arith)
  remaining-IsSoundList c id (some k) l h e =
      elim (Bool-cases (is_empty (retain (other_than c) k))) [
        | inl p ↦ absurd (ground arith)
        | inr p ↦
            subst (IsSoundList id) (ground arith)
              (p, All-retain (IsSound id) (other_than c) k (h k refl).1)
      ]

  pub revoke_capability-IsValid : (i c : String) → IsValid (revoke_capability r i c).1
  revoke_capability-IsValid i c = record {
    sound = λ id l e. elim (Bool-cases (i == id)) [
      | inl p ↦
          remaining-IsSoundList c id (HashMap.get r.assignments id) l (v.sound id)
            (ground (arith, get-revoke_capability r i c id))
      | inr p ↦ v.sound id l (ground (arith, get-revoke_capability r i c id))
    ];
  }

  pub clear_instance-IsValid : (i : String) → IsValid (clear_instance r i)
  unfolding clear_instance
  clear_instance-IsValid i = record {
    sound = λ id l e. v.sound id l (ground (arith, get-remove r.assignments i id));
  }

run_from-IsValid : (r : CapabilityRegistry) (cs : List Call) → IsValid r → IsValid (run r cs)
run_from-IsValid r [] v = v
run_from-IsValid r (registers id t ∷ cs) v =
    run_from-IsValid (register_provider r id t) cs (register_provider-IsValid r id t v)
run_from-IsValid r (assigns a ∷ cs) v =
    run_from-IsValid (assign_capability r a).1 cs (assign_capability-IsValid r v a)
run_from-IsValid r (revokes i c ∷ cs) v =
    run_from-IsValid (revoke_capability r i c).1 cs (revoke_capability-IsValid r v i c)
run_from-IsValid r (clears i ∷ cs) v =
    run_from-IsValid (clear_instance r i) cs (clear_instance-IsValid r v i)

-- After any calls on a new registry, what is stored under an instance is a nonempty list of
-- assignments for that instance, each with permissions of its provider type only.
pub run-IsValid : (cs : List Call) → IsValid (run new cs)
run-IsValid cs = run_from-IsValid new cs new-IsValid
