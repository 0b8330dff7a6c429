-- ===== src/Core/Isolation/Scoping.antt =====
-- What the isolation checks decide.
use wasmatrix.Prelude.{
  ℕ, ◌≡◌, refl, String, true, false, not, none, some, List, [], ◌∷◌, any, all, arith, ◌==◌, eq_iff,
  eq_refl, ok, Bool-cases, inl, inr, Option, same_bytes,
}
use wasmatrix.HashMap
use wasmatrix.HashMap.{get-insert, get-remove}
use wasmatrix.Core.Types.{CapabilityAssignment}
use wasmatrix.Core.Isolation.{
  IsolationSandbox, same_texts, same_memory, verify_provider_scoping, verify_memory_isolation,
  first_scoped, verify_capability_isolation, unregister_instance, get_instance_capabilities,
}

same_bytes_refl : (xs : List ℕ) → same_bytes xs xs ≡ true
unfolding same_bytes
same_bytes_refl [] = refl
same_bytes_refl (x ∷ xs) = ground (arith, same_bytes_refl xs)

same_memory_refl : (o : Option (List ℕ)) → same_memory o o ≡ true
same_memory_refl none = refl
same_memory_refl (some xs) = same_bytes_refl xs

-- The memory check passes exactly for two different instances, whatever their memory holds.
pub verify_memory_isolation-eq :
    (s : IsolationSandbox) (i j : String) → verify_memory_isolation s i j ≡ ok (not (i == j))
unfolding verify_memory_isolation
verify_memory_isolation-eq s i j = elim (Bool-cases (i == j)) [
  | inl e ↦ rw (
    (eq_iff i j).0 e,
    verify_memory_isolation,
    eq_refl j,
    same_memory_refl (HashMap.get s.instance_memory j),
  )
  | inr e ↦ rw (e, verify_memory_isolation)
]

first_scoped-eq-any :
    (i c : String) (l : List CapabilityAssignment)
    → all l (λ a. a.instance_id == i) ≡ true
    → first_scoped i c l ≡ any l (λ a. a.capability_id == c)
unfolding first_scoped any all
first_scoped-eq-any i c [] h = refl
first_scoped-eq-any i c (a ∷ l) h = ground (arith, first_scoped-eq-any i c l)

-- Where the assignments stored for an instance are scoped to it, the check of the sandbox tells
-- exactly whether the instance has an assignment for the capability.
verify_capability_isolation-scoped :
    (s : IsolationSandbox) (i j c : String) (l : List CapabilityAssignment)
    → get_instance_capabilities s i ≡ some l
    → verify_provider_scoping i l ≡ ok true
    → verify_capability_isolation s i j c ≡ ok (any l (λ a. a.capability_id == c))
unfolding verify_capability_isolation verify_provider_scoping get_instance_capabilities
verify_capability_isolation-scoped s i j c l e h = ground (arith, first_scoped-eq-any i c l)

-- An instance that is not registered has no access.
pub verify_capability_isolation-unregistered :
    (s : IsolationSandbox) (i j c : String)
    → verify_capability_isolation (unregister_instance s i).1 i j c ≡ ok false
unfolding verify_capability_isolation unregister_instance
verify_capability_isolation-unregistered s i j c =
    ground (arith, get-remove s.instance_capabilities i i, eq_refl i)

same_texts_comm : (xs ys : List String) → same_texts xs ys ≡ same_texts ys xs
unfolding same_texts
same_texts_comm [] [] = refl
same_texts_comm [] (y ∷ ys) = refl
same_texts_comm (x ∷ xs) [] = refl
same_texts_comm (x ∷ xs) (y ∷ ys) = ground (arith, same_texts_comm xs ys, eq_iff x y, eq_iff y x)
