-- ===== src/Core/Capability/Enforcement.antt =====
-- `PermissionEnforcer::enforce` lets through exactly what the registry grants.
use wasmatrix.Prelude.{
  ◌≡◌, refl, ◌↔◌, String, Bool, true, false, ◌&&◌, ◌||◌, none, some, List, [], ◌∷◌, ◌++◌, retain,
  any, contains, arith, ◌==◌, eq_iff, ok, if◌then◌else◌, Option-cases, inl, inr, Option,
}
use wasmatrix.HashMap
use wasmatrix.HashMap.{get-push_at, get-remove}
use wasmatrix.Core.Types.{
  CapabilityAssignment, ProviderType, kv, http, messaging, has_permission as grants,
}
use wasmatrix.Core.Capability.{
  CapabilityRegistry, valid_permissions, has_capability, has_permission, required_permission,
  enforce,
}

-- a grant found among the assignments for a capability is one of an assignment for it
any-of-retained :
    (c p : String) (l : List CapabilityAssignment)
    → any (retain (λ a. a.capability_id == c) l) (λ a. grants a p) ≡ true
    → any l (λ a. a.capability_id == c) ≡ true
unfolding any retain
any-of-retained c p [] h = h
any-of-retained c p (a ∷ l) h = ground (arith, any-of-retained c p l)

-- Who has a permission for a capability has the capability.
pub has_capability_of-has_permission :
    (r : CapabilityRegistry) (i c p : String)
    → has_permission r i c p ≡ true
    → has_capability r i c ≡ true
unfolding has_permission has_capability
has_capability_of-has_permission r i c p h = elim (Option-cases (HashMap.get r.assignments i)) [
  | inl e ↦ absurd (ground arith)
  | inr (l, e) ↦ ground (arith, any-of-retained c p l)
]

-- An invocation passes exactly when its operation is known for the provider type and the instance
-- has the permission that the operation needs, for that capability.
pub enforce_exact :
    (r : CapabilityRegistry) (i c : String) (t : ProviderType) (op : String)
    → (enforce r i c t op ≡ ok tt)
      ↔ ((p : String) × (required_permission t op ≡ some p) × (has_permission r i c p ≡ true))
unfolding enforce
enforce_exact r i c t op = (to, from)
  where
    to :
        enforce r i c t op ≡ ok tt
        → (p : String) × (required_permission t op ≡ some p) × (has_permission r i c p ≡ true)
    to h = elim (Option-cases (required_permission t op)) [
      | inl e ↦ absurd (ground arith)
      | inr (p, e) ↦ (p, e, ground arith)
    ]

    from :
        ((p : String) × (required_permission t op ≡ some p) × (has_permission r i c p ≡ true))
        → enforce r i c t op ≡ ok tt
    from (p, e, h) = ground (arith, has_capability_of-has_permission r i c p)

abbrev valid_if_any : ProviderType → Option String → Bool
valid_if_any t none = true
valid_if_any t (some p) = contains (valid_permissions t) p

valid_if_any-if :
    (t : ProviderType) (b : Bool) (x y : Option String)
    → valid_if_any t x ≡ true
    → valid_if_any t y ≡ true
    → valid_if_any t (if b then x else y) ≡ true
valid_if_any-if t true x y hx hy = hx
valid_if_any-if t false x y hx hy = hy

valid_if_any_required :
    (t : ProviderType) (op : String) → valid_if_any t (required_permission t op) ≡ true
unfolding required_permission contains
valid_if_any_required kv op = valid_if_any-if kv (op == "get") _ _ refl (
    valid_if_any-if kv (op == "list") _ _ refl (
      valid_if_any-if kv (op == "exists") _ _ refl (
        valid_if_any-if kv (op == "set") _ _ refl
          (valid_if_any-if kv (op == "delete") _ _ refl refl))))
valid_if_any_required http op = valid_if_any-if http (op == "request") _ _ refl refl
valid_if_any_required messaging op =
    valid_if_any-if messaging (op == "publish") _ _ refl
      (valid_if_any-if messaging (op == "subscribe") _ _ refl refl)

-- An operation needs a permission that may be assigned for its provider type.
pub required_permission-valid :
    (t : ProviderType) (op p : String)
    → required_permission t op ≡ some p
    → contains (valid_permissions t) p ≡ true
required_permission-valid t op p h = rw h at (valid_if_any_required t op)

granted_by :
    (d p : String) (l : List CapabilityAssignment) (a : CapabilityAssignment)
    → any (retain (λ x. x.capability_id == d) (l ++ (a ∷ []))) (λ x. grants x p) ≡ (
        any (retain (λ x. x.capability_id == d) l) (λ x. grants x p)
        || ((a.capability_id == d) && contains a.permissions p))
unfolding any retain grants
granted_by d p [] a = ground arith
granted_by d p (x ∷ l) a = ground (arith, granted_by d p l a)

pub has_permission-store :
    (r : CapabilityRegistry) (a : CapabilityAssignment) (j d p : String)
    → has_permission
        (record r { assignments = HashMap.push_at r.assignments a.instance_id a })
        j
        d
        p
      ≡ (has_permission r j d p
          || ((a.instance_id == j) && ((a.capability_id == d) && contains a.permissions p)))
unfolding has_permission
has_permission-store r a j d p = elim (Option-cases (HashMap.get r.assignments j)) [
  | inl e ↦ ground (
    arith,
    get-push_at r.assignments a.instance_id j a,
    eq_iff a.instance_id j,
    granted_by d p [] a,
  )
  | inr (l, e) ↦ ground (
    arith,
    get-push_at r.assignments a.instance_id j a,
    eq_iff a.instance_id j,
    granted_by d p l a,
  )
]
