-- ===== src/Core/Capability/Revocation.antt =====
-- `revoke_capability` and `clear_instance`: exactly the named capability is gone.
use wasmatrix.Prelude.{
  ◌≡◌, refl, String, Bool, false, not, ◌&&◌, none, some, List, [], ◌∷◌, is_empty, retain, any,
  length, arith, ltb, ◌==◌, eq_iff, ok, if◌then◌else◌, Option-cases, inl, inr, Option,
  length-retain-le,
}
use wasmatrix.HashMap
use wasmatrix.HashMap.{HashMap, get-modify, get-remove, map_laws}
use wasmatrix.Core.Types.{CapabilityAssignment}
use wasmatrix.Core.Capability.{
  CapabilityRegistry, revoke_capability, has_capability, has_permission,
}

-- the assignments that are not for the capability
abbrev pub other_than : String → CapabilityAssignment → Bool
other_than capability_id a = not (a.capability_id == capability_id)

-- an instance's list after a revocation; an empty list has no entry
abbrev pub remaining :
    String → Option (List CapabilityAssignment) → Option (List CapabilityAssignment)
remaining c none = none
remaining c (some l) =
    if is_empty (retain (other_than c) l) then none else some (retain (other_than c) l)

-- Which of the assignments that remain are for the capability `d`.
any-other_than :
    (c d : String) (l : List CapabilityAssignment)
    → any (retain (other_than c) l) (λ a. a.capability_id == d)
      ≡ (if c == d then false else any l (λ a. a.capability_id == d))
unfolding any retain
any-other_than c d [] = ground arith
any-other_than c d (a ∷ l) =
    ground
      (arith, any-other_than c d l, eq_iff a.capability_id c, eq_iff a.capability_id d, eq_iff c d)

retain-other_than :
    (c d : String) (l : List CapabilityAssignment)
    → retain (λ a. a.capability_id == d) (retain (other_than c) l)
      ≡ (if c == d then [] else retain (λ a. a.capability_id == d) l)
unfolding retain
retain-other_than c d [] = ground arith
retain-other_than c d (a ∷ l) =
    ground (
      arith,
      retain-other_than c d l,
      eq_iff a.capability_id c,
      eq_iff a.capability_id d,
      eq_iff c d,
    )

-- An assignment is dropped exactly if there was one for the capability.
fewer-iff-any :
    (c : String) (l : List CapabilityAssignment)
    → ltb (length (retain (other_than c) l)) (length l) ≡ any l (λ a. a.capability_id == c)
unfolding any retain
fewer-iff-any c [] = refl
fewer-iff-any c (a ∷ l) = ground (arith, fewer-iff-any c l, length-retain-le (other_than c) l)

module _ (r : CapabilityRegistry) (i c : String) where
  -- The map after a revocation, at every key.
  pub get-revoke_capability :
      (j : String)
      → HashMap.get (revoke_capability r i c).1.assignments j ≡ (
          if i == j then remaining c (HashMap.get r.assignments j) else HashMap.get r.assignments j)
  unfolding revoke_capability
  get-revoke_capability j = ground (
    arith,
    eq_iff i j,
    get-modify r.assignments i j (retain (other_than c)),
    get-remove (HashMap.modify r.assignments i (retain (other_than c))) i j,
  )

  -- The returned flag tells whether the instance had the capability.
  pub revoke_capability-reports : (revoke_capability r i c).0 ≡ ok (has_capability r i c)
  unfolding revoke_capability has_capability
  revoke_capability-reports = elim (Option-cases (HashMap.get r.assignments i)) [
    | inl e ↦ rw (e, revoke_capability, has_capability)
    | inr (l, e) ↦ ground (arith, fewer-iff-any c l)
  ]

  -- After a revocation the instance lacks the capability; every other pair of an instance and a
  -- capability is as before.
  pub has_capability-revoke_capability :
      (j d : String)
      → has_capability (revoke_capability r i c).1 j d
        ≡ (if (i == j) && (c == d) then false else has_capability r j d)
  unfolding has_capability
  has_capability-revoke_capability j d = elim (Option-cases (HashMap.get r.assignments j)) [
    | inl e ↦ ground (arith, get-revoke_capability j)
    | inr (l, e) ↦ ground (arith, get-revoke_capability j, any-other_than c d l)
  ]

  pub has_permission-revoke_capability :
      (j d p : String)
      → has_permission (revoke_capability r i c).1 j d p
        ≡ (if (i == j) && (c == d) then false else has_permission r j d p)
  unfolding has_permission
  has_permission-revoke_capability j d p = elim (Option-cases (HashMap.get r.assignments j)) [
    | inl e ↦ ground (arith, get-revoke_capability j)
    | inr (l, e) ↦ ground (arith, get-revoke_capability j, retain-other_than c d l)
  ]

-- A revocation reports whether the instance had the capability, takes the capability and all its
-- permissions from that instance, and leaves every other pair of an instance and a capability.
pub revoke_capability-exact :
    (r : CapabilityRegistry) (i c j d p : String)
    → ((revoke_capability r i c).0 ≡ ok (has_capability r i c))
      × (has_capability (revoke_capability r i c).1 j d
          ≡ (if (i == j) && (c == d) then false else has_capability r j d))
      × (has_permission (revoke_capability r i c).1 j d p
          ≡ (if (i == j) && (c == d) then false else has_permission r j d p))
revoke_capability-exact r i c j d p = (
  revoke_capability-reports r i c,
  has_capability-revoke_capability r i c j d,
  has_permission-revoke_capability r i c j d p,
)
