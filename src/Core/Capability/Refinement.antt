-- ===== src/Core/Capability/Refinement.antt =====
-- `CapabilityRegistry` refines an abstract account of providers and grants, which has no lists, no
-- entries and no error texts: an assignment adds grants, a revocation or a clearing takes them away.
use wasmatrix.Prelude.{
  ◌≡◌, refl, sym, ◌∙◌, ◌↔◌, String, Bool, true, false, ◌&&◌, ◌||◌, none, some, List, [], ◌∷◌, all,
  contains, arith, ◌==◌, ok, err, Result, if◌then◌else◌, Option-cases, inl, inr, Option, is_ok,
}
use wasmatrix.HashMap
use wasmatrix.HashMap.{get-insert, get-remove}
use wasmatrix.Core.Types.{CapabilityAssignment, CoreError, ProviderType, same_type}
use wasmatrix.Core.Capability.{
  CapabilityRegistry, new, register_provider, valid_permissions, check_permissions,
  validate_assignment, assign_capability, revoke_capability, clear_instance, has_permission,
  required_permission, enforce,
}
use wasmatrix.Core.Capability.Revocation.{has_permission-revoke_capability}
use wasmatrix.Core.Capability.Enforcement.{enforce_exact, has_permission-store}

-- The calls that change a registry.
pub data Call : Type 0 where
  registers : String → ProviderType → Call
  assigns : CapabilityAssignment → Call
  revokes : String → String → Call
  clears : String → Call

abbrev pub step : CapabilityRegistry → Call → CapabilityRegistry
step r (registers id t) = register_provider r id t
step r (assigns a) = (assign_capability r a).1
step r (revokes i c) = (revoke_capability r i c).1
step r (clears i) = clear_instance r i

abbrev pub run : CapabilityRegistry → List Call → CapabilityRegistry
run r [] = r
run r (c ∷ cs) = run (step r c) cs

-- The type under which each provider is known, and which instance holds which permission for which
-- capability.
pub record Account : Type 0 where
  pub known : String → Option ProviderType
  pub grants : String → String → String → Bool

abbrev pub empty_account : Account
empty_account = record { known = λ _. none; grants = λ _ _ _. false }

abbrev pub fits : Option ProviderType → CapabilityAssignment → Bool
fits none a = false
fits (some t) a = same_type t a.provider_type && all a.permissions (contains (valid_permissions t))

abbrev pub account_step : Account → Call → Account
account_step s (registers id t) = record s { known = λ k. if id == k then some t else s.known k }
account_step s (assigns a) = record s {
  grants = λ j d p.
      s.grants j d p
      || (fits (s.known a.capability_id) a
          && ((a.instance_id == j) && ((a.capability_id == d) && contains a.permissions p)));
}
account_step s (revokes i c) = record s {
  grants = λ j d p. if (i == j) && (c == d) then false else s.grants j d p;
}
account_step s (clears i) = record s { grants = λ j d p. if i == j then false else s.grants j d p }

abbrev pub account_run : Account → List Call → Account
account_run s [] = s
account_run s (c ∷ cs) = account_run (account_step s c) cs

pub record Refines (r : CapabilityRegistry) (s : Account) : Type 0 where
  pub known : (k : String) → HashMap.get r.known_providers k ≡ s.known k
  pub grants : (j d p : String) → has_permission r j d p ≡ s.grants j d p

is_ok-check_permissions :
    (t : ProviderType) (ps : List String)
    → is_ok (check_permissions t ps) ≡ all ps (contains (valid_permissions t))
unfolding check_permissions all
is_ok-check_permissions t [] = refl
is_ok-check_permissions t (p ∷ ps) = ground (arith, is_ok-check_permissions t ps)

same_type-eq : (s t : ProviderType) → same_type s t ≡ true → s ≡ t
same_type-eq s t h = ground arith

-- An assignment is accepted exactly if its provider is known under its type and its permissions
-- are all valid for that type.
pub is_ok-validate_assignment :
    (r : CapabilityRegistry) (a : CapabilityAssignment)
    → is_ok (validate_assignment r a) ≡ fits (HashMap.get r.known_providers a.capability_id) a
unfolding validate_assignment
is_ok-validate_assignment r a =
    elim (Option-cases (HashMap.get r.known_providers a.capability_id)) [
      | inl e ↦ ground arith
      | inr (t, e) ↦ ground (arith, is_ok-check_permissions t a.permissions)
    ]

known-assign_capability :
    (r : CapabilityRegistry) (a : CapabilityAssignment)
    → (assign_capability r a).1.known_providers ≡ r.known_providers
unfolding assign_capability
known-assign_capability r a = ground arith

known-revoke_capability :
    (r : CapabilityRegistry) (i c : String)
    → (revoke_capability r i c).1.known_providers ≡ r.known_providers
unfolding revoke_capability
known-revoke_capability r i c = ground arith

has_permission-assign_capability :
    (r : CapabilityRegistry) (a : CapabilityAssignment) (j d p : String)
    → has_permission (assign_capability r a).1 j d p ≡ (
        has_permission r j d p
        || (is_ok (validate_assignment r a)
            && ((a.instance_id == j) && ((a.capability_id == d) && contains a.permissions p))))
unfolding assign_capability
has_permission-assign_capability r a j d p = go (validate_assignment r a) refl
  where
    go :
        (x : Result (Unit {0}) CoreError)
        → validate_assignment r a ≡ x
        → has_permission (assign_capability r a).1 j d p ≡ (
            has_permission r j d p
            || (is_ok (validate_assignment r a)
                && ((a.instance_id == j) && ((a.capability_id == d) && contains a.permissions p))))
    go (ok u) e = rw (e, assign_capability) (has_permission-store r a j d p)
    go (err x) e = rw (e, assign_capability) (ground arith)

-- Every call keeps the registry in step with the account.
pub step-Refines :
    (r : CapabilityRegistry) (s : Account) (c : Call)
    → Refines r s
    → Refines (step r c) (account_step s c)
step-Refines r s (registers id t) v = record {
  known = λ k.
      unfold register_provider in ground (arith, get-insert r.known_providers id k t, v.known k);
  grants = λ j d p. unfold register_provider has_permission in v.grants j d p;
}
step-Refines r s (assigns a) v = record {
  known = λ k. rw (known-assign_capability r a) (v.known k);
  grants = λ j d p. ground (
    arith,
    has_permission-assign_capability r a j d p,
    is_ok-validate_assignment r a,
    v.known a.capability_id,
    v.grants j d p,
  );
}
step-Refines r s (revokes i c) v = record {
  known = λ k. rw (known-revoke_capability r i c) (v.known k);
  grants = λ j d p. ground (arith, has_permission-revoke_capability r i c j d p, v.grants j d p);
}
step-Refines r s (clears i) v = record {
  known = λ k. unfold clear_instance in v.known k;
  grants = λ j d p.
      unfold has_permission clear_instance in
      ground (arith, get-remove r.assignments i j, v.grants j d p);
}

run-Refines :
    (r : CapabilityRegistry) (s : Account) (cs : List Call)
    → Refines r s
    → Refines (run r cs) (account_run s cs)
run-Refines r s [] v = v
run-Refines r s (c ∷ cs) v = run-Refines (step r c) (account_step s c) cs (step-Refines r s c v)

new-Refines : Refines new empty_account
new-Refines = record {
  known = λ k. HashMap.get-empty k;
  grants = λ j d p.
      unfold has_permission in ground (arith, HashMap.get-empty {V = List CapabilityAssignment} j);
}

-- After any calls on a new registry an operation passes exactly if it is known and the account of
-- those calls has its permission granted to the instance for the capability.
pub enforce-run :
    (cs : List Call) (i c : String) (t : ProviderType) (op : String)
    → (enforce (run new cs) i c t op ≡ ok tt) ↔ (
        (p : String) × (required_permission t op ≡ some p)
        × ((account_run empty_account cs).grants i c p ≡ true))
enforce-run cs i c t op = (to, from)
  where
    agree : Refines (run new cs) (account_run empty_account cs)
    agree = run-Refines new empty_account cs new-Refines

    exact : (enforce (run new cs) i c t op ≡ ok tt) ↔ (
        (p : String) × (required_permission t op ≡ some p)
        × (has_permission (run new cs) i c p ≡ true))
    exact = enforce_exact (run new cs) i c t op

    to :
        enforce (run new cs) i c t op ≡ ok tt
        → (p : String) × (required_permission t op ≡ some p)
          × ((account_run empty_account cs).grants i c p ≡ true)
    to h = let (p, known, held) = exact.0 h in (p, known, sym (agree.grants i c p) ∙ held)

    from :
        ((p : String) × (required_permission t op ≡ some p)
          × ((account_run empty_account cs).grants i c p ≡ true))
        → enforce (run new cs) i c t op ≡ ok tt
    from (p, known, held) = exact.1 (p, known, agree.grants i c p ∙ held)
