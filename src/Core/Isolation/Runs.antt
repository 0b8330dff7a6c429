-- ===== src/Core/Isolation/Runs.antt =====
-- Sequences of registrations and unregistrations of the isolation sandbox, and what its checks say
-- after all of them.
use wasmatrix.Prelude.{
  ℕ, ◌≡◌, refl, String, false, Bool, not, ◌&&◌, none, some, Option, List, [], ◌∷◌, any, arith, ◌==◌,
  ok, is_some, Option-cases, find_first, inl, inr, if◌then◌else◌,
}
use mathlib.Core.Option
use wasmatrix.HashMap
use wasmatrix.HashMap.{get-insert, get-remove, get-empty}
use wasmatrix.Core.Types.{CapabilityAssignment}
use wasmatrix.Core.Isolation.{
  IsolationSandbox, new, verify_memory_isolation, verify_capability_isolation, register_instance,
  unregister_instance, is_instance_registered, get_instance_capabilities, first_scoped,
}
use wasmatrix.Core.Isolation.Scoping.{verify_memory_isolation-eq}

pub data Call : Type 0 where
  registers : String → List CapabilityAssignment → Call
  unregisters : String → Call

abbrev pub step : IsolationSandbox → Call → IsolationSandbox
step s (registers i caps) = (register_instance s i caps).1
step s (unregisters i) = (unregister_instance s i).1

unfoldable pub run : IsolationSandbox → List Call → IsolationSandbox
run s [] = s
run s (call ∷ calls) = run (step s call) calls

-- the assignments of the last registration of the instance that no unregistration follows, and those
-- given before if no call names it
abbrev pub standing :
    String → Option (List CapabilityAssignment) → List Call → Option (List CapabilityAssignment)
standing i before [] = before
standing i before (registers j caps ∷ calls) =
    standing i (if j == i then some caps else before) calls
standing i before (unregisters j ∷ calls) = standing i (if j == i then none else before) calls

-- the sandbox keeps for the instance just the assignments, with empty memory
abbrev pub Keeps : IsolationSandbox → String → Option (List CapabilityAssignment) → Type 0
Keeps s i caps =
    (HashMap.get s.instance_capabilities i ≡ caps)
    × (HashMap.get s.instance_memory i ≡ Option.map (λ _. []) caps)

is_some-map :
    (caps : Option (List CapabilityAssignment))
    → is_some (Option.map {B = List ℕ} (λ _. []) caps) ≡ is_some caps
is_some-map none = refl
is_some-map (some caps) = refl

run-Keeps :
    (s : IsolationSandbox) (calls : List Call) (i : String)
    (before : Option (List CapabilityAssignment))
    → Keeps s i before
    → Keeps (run s calls) i (standing i before calls)
unfolding run register_instance unregister_instance
run-Keeps s [] i before kept = kept
run-Keeps s (registers j caps ∷ calls) i before kept =
    run-Keeps (step s (registers j caps)) calls i (if j == i then some caps else before) (
      ground (arith, kept.0, get-insert s.instance_capabilities j i caps),
      ground (arith, kept.1, get-insert s.instance_memory j i []),
    )
run-Keeps s (unregisters j ∷ calls) i before kept =
    run-Keeps (step s (unregisters j)) calls i (if j == i then none else before) (
      ground (arith, kept.0, get-remove s.instance_capabilities j i),
      ground (arith, kept.1, get-remove s.instance_memory j i),
    )

-- the first of the assignments that is for the capability is the instance's own
abbrev pub owns : String → String → Option (List CapabilityAssignment) → Bool
owns i c none = false
owns i c (some caps) = elim (find_first (λ a. a.capability_id == c) caps) [
  | none ↦ false
  | some a ↦ a.instance_id == i
]

first_scoped-owns :
    (i c : String) (caps : List CapabilityAssignment)
    → (any caps (λ a. a.capability_id == c) && first_scoped i c caps) ≡ owns i c (some caps)
unfolding any first_scoped find_first
first_scoped-owns i c [] = refl
first_scoped-owns i c (a ∷ caps) = ground (arith, first_scoped-owns i c caps)

verify_capability_isolation-owns :
    (s : IsolationSandbox) (i j c : String)
    → verify_capability_isolation s i j c ≡ ok (owns i c (HashMap.get s.instance_capabilities i))
unfolding verify_capability_isolation
verify_capability_isolation-owns s i j c =
    elim (Option-cases (HashMap.get s.instance_capabilities i)) [
      | inl e ↦ ground (arith, e)
      | inr (caps, e) ↦ ground (arith, e, first_scoped-owns i c caps)
    ]

-- After any registrations and unregistrations on a new sandbox an instance is registered exactly if
-- its last call is a registration. It then has the assignments of that registration and empty
-- memory, and otherwise neither. The capability check passes exactly if the first of these
-- assignments for the capability is the instance's own, the memory check exactly for two different
-- instances.
pub isolation_run-last :
    (calls : List Call) (i j c : String)
    → let caps = standing i none calls in
      (is_instance_registered (run new calls) i ≡ is_some caps)
      × (get_instance_capabilities (run new calls) i ≡ caps)
      × (HashMap.get (run new calls).instance_memory i ≡ Option.map (λ _. []) caps)
      × (verify_capability_isolation (run new calls) i j c ≡ ok (owns i c caps))
      × (verify_memory_isolation (run new calls) i j ≡ ok (not (i == j)))
unfolding is_instance_registered get_instance_capabilities
isolation_run-last calls i j c =
    let kept =
      run-Keeps new calls i none
        (get-empty {V = List CapabilityAssignment} i, get-empty {V = List ℕ} i) in
    (
      rw kept.1 (is_some-map (standing i none calls)),
      kept.0,
      kept.1,
      rw (verify_capability_isolation-owns, kept.0) refl,
      verify_memory_isolation-eq (run new calls) i j,
    )
