-- ===== src/NodeRouting/Selection/Order.antt =====
-- Which nodes are candidates for a start, and in which order.
use wasmatrix.Prelude.{
  ltb, leb, not, ℕ, ◌≤◌, String, Bool, true, List, [], ◌∷◌, ◌==◌, eq_iff, ◌&&◌, ◌||◌, ◌≡◌, refl,
  ◌∙◌, ap, arith, map, is_empty, all, any, leb, All, sort_by, insert_sorted, count, count-sort_by,
  count-retain, Bool-cases, inl, inr,
}
use wasmatrix.Core.Types.{CapabilityAssignment, StartInstanceRequest}
use wasmatrix.NodeRouting.Repository.{NodeAgentRecord}
use wasmatrix.NodeRouting.Selection.{
  can_accept_instance, provider_type_to_string, drop_equal, dedup, text_leb,
  required_provider_types, node_supports_required_providers, select_candidate_nodes,
}

all-insert_sorted :
    {A : Type 0} (le : A → A → Bool) (p : A → Bool) (x : A) (xs : List A)
    → all (insert_sorted le x xs) p ≡ (p x && all xs p)
unfolding insert_sorted all
all-insert_sorted le p x [] = refl
all-insert_sorted le p x (y ∷ ys) = ground (arith, all-insert_sorted le p x ys)

all-sort_by :
    {A : Type 0} (le : A → A → Bool) (p : A → Bool) (xs : List A) → all (sort_by le xs) p ≡ all xs p
unfolding sort_by all
all-sort_by le p [] = refl
all-sort_by le p (x ∷ xs) =
    ground (arith, all-sort_by le p xs, all-insert_sorted le p x (sort_by le xs))

all-drop_equal :
    (p : String → Bool) (s : String) (l : List String)
    → (p s && all (drop_equal s l) p) ≡ (p s && all l p)
unfolding all
all-drop_equal p s [] = refl
all-drop_equal p s (t ∷ ts) = ground (arith, eq_iff s t, ap p)

all-dedup : (p : String → Bool) (l : List String) → all (dedup l) p ≡ all l p
unfolding dedup all
all-dedup p [] = refl
all-dedup p (s ∷ ss) = ground (arith, all-dedup p ss, all-drop_equal p s (dedup ss))

all-map :
    {A B : Type 0} (f : A → B) (p : B → Bool) (l : List A) → all (map f l) p ≡ all l (λ a. p (f a))
unfolding all
all-map f p [] = refl
all-map f p (x ∷ xs) = ground (arith, all-map f p xs)

-- the node is available and not full
abbrev pub is_open : NodeAgentRecord → Bool
is_open node =
    node.available && not (ltb 0 node.max_instances && leb node.max_instances node.active_instances)

can_accept_instance-is_open : (node : NodeAgentRecord) → can_accept_instance node ≡ is_open node
can_accept_instance-is_open node = ground arith

-- the node has the provider types of all capabilities, or tells nothing of its types
abbrev pub supports : NodeAgentRecord → StartInstanceRequest → Bool
supports node request =
    is_empty node.capabilities
    || all request.capabilities
        (λ cap. any node.capabilities (λ c. c == provider_type_to_string cap.provider_type))

all-required_provider_types :
    (p : String → Bool) (request : StartInstanceRequest)
    → all (required_provider_types request) p
      ≡ all request.capabilities (λ cap. p (provider_type_to_string cap.provider_type))
unfolding required_provider_types
all-required_provider_types p request =
    let types =
      map (λ (cap : CapabilityAssignment). provider_type_to_string cap.provider_type)
        request.capabilities in
    all-dedup p (sort_by text_leb types)
    ∙ all-sort_by text_leb p types
    ∙ all-map (λ (cap : CapabilityAssignment). provider_type_to_string cap.provider_type) p
        request.capabilities

all_of_is_empty : {A : Type 0} (p : A → Bool) (l : List A) → is_empty l ≡ true → all l p ≡ true
unfolding all
all_of_is_empty p [] h = refl
all_of_is_empty p (x ∷ xs) h = ground arith

-- Sorting and removing duplicates of the required types does not change which nodes support a
-- request.
node_supports_required_providers-eq :
    (node : NodeAgentRecord) (request : StartInstanceRequest)
    → node_supports_required_providers node request ≡ supports node request
unfolding node_supports_required_providers
node_supports_required_providers-eq node request =
    let has_type = λ (provider : String). any node.capabilities (λ cap. cap == provider) in
    let types = all-required_provider_types has_type request in
    elim (Bool-cases (is_empty (required_provider_types request))) [
      | inl e ↦
          ground (arith, e, types, all_of_is_empty has_type (required_provider_types request) e)
      | inr e ↦ ground (arith, e, types)
    ]

abbrev pub IsSortedBy : {A : Type 0} → (A → ℕ) → List A → Type 0
IsSortedBy key [] = Unit
IsSortedBy key (x ∷ xs) = All (λ y. key x ≤ key y) xs × IsSortedBy key xs

module _ {A : Type 0} (key : A → ℕ) where
  abbrev key_leb : A → A → Bool
  key_leb x y = leb (key x) (key y)

  All-above : (k j : ℕ) (l : List A) → k ≤ j → All (λ y. j ≤ key y) l → All (λ y. k ≤ key y) l
  All-above k j [] h a = tt
  All-above k j (x ∷ xs) h a = (ground arith, All-above k j xs h a.1)

  All-insert_sorted :
      (k : ℕ) (x : A) (l : List A)
      → k ≤ key x
      → All (λ y. k ≤ key y) l
      → All (λ y. k ≤ key y) (insert_sorted key_leb x l)
  unfolding insert_sorted
  All-insert_sorted k x [] h a = (h, tt)
  All-insert_sorted k x (y ∷ ys) h a = let rest = All-insert_sorted k x ys h a.1 in ground arith

  insert_sorted-IsSortedBy :
      (x : A) (l : List A) → IsSortedBy key l → IsSortedBy key (insert_sorted key_leb x l)
  unfolding insert_sorted
  insert_sorted-IsSortedBy x [] s = (tt, tt)
  insert_sorted-IsSortedBy x (y ∷ ys) s = elim (Bool-cases (key_leb x y)) [
    | inl e ↦ rw e ((ground (arith, e), All-above (key x) (key y) ys (ground (arith, e)) s.0), s)
    | inr e ↦
        rw e (
          All-insert_sorted (key y) x ys (ground (arith, e)) s.0,
          insert_sorted-IsSortedBy x ys s.1,
        )
  ]

  sort_by-IsSortedBy : (l : List A) → IsSortedBy key (sort_by key_leb l)
  unfolding sort_by
  sort_by-IsSortedBy [] = tt
  sort_by-IsSortedBy (x ∷ xs) =
      insert_sorted-IsSortedBy x (sort_by key_leb xs) (sort_by-IsSortedBy xs)

count-ext :
    {A : Type 0} {p q : A → Bool} → ((x : A) → p x ≡ q x) → (l : List A) → count p l ≡ count q l
count-ext e [] = refl
count-ext e (x ∷ xs) = ground (arith, e x, count-ext e xs)

-- The candidates for a request are sorted by the number of their active instances, and they are
-- exactly the listed nodes that are available, are not full, where a limit of zero is none, and
-- support the provider types of all requested capabilities or tell nothing of theirs: for every
-- test as many candidates pass it as such nodes do.
pub select_candidate_nodes-exact :
    (nodes : List NodeAgentRecord) (request : StartInstanceRequest)
    → IsSortedBy (λ n. n.active_instances) (select_candidate_nodes nodes request)
      × ((p : NodeAgentRecord → Bool)
          → count p (select_candidate_nodes nodes request)
            ≡ count (λ n. (is_open n && supports n request) && p n) nodes)
unfolding select_candidate_nodes
select_candidate_nodes-exact nodes request = (
  sort_by-IsSortedBy (λ n. n.active_instances) _,
  λ p.
      count-sort_by _ p _
      ∙ count-retain p _ nodes
      ∙ count-ext
          (λ n.
            ground
              (arith, node_supports_required_providers-eq n request, can_accept_instance-is_open n))
          nodes,
)
