-- ===== src/Prelude/Lists.antt =====
-- Lists measured by native numbers, and the Boolean `any`, `all` and `retain` of Rust's iterators.
use Prim.Native.Nat.{ℕ, zero, suc, ◌+◌, ◌≤◌}
use mathlib.Core.Path.{◌≡◌, refl}
use mathlib.Core.Bool.{Bool, true, false, ◌&&◌, ◌||◌}
use mathlib.Core.Option.{Option, none, some}
use mathlib.Core.List.{List, [], ◌∷◌, ◌++◌}
use native.Mathlib.Omega.{arith}
use wasmatrix.Prelude.Tests.{eqb, if◌then◌else◌}

module _ {ℓ} {A : Type ℓ} where
  abbrev pub length : List A → ℕ
  length [] = 0
  length (x ∷ xs) = suc (length xs)

  pub length-append : (xs ys : List A) → length (xs ++ ys) ≡ length xs + length ys
  length-append [] ys = omega arith
  length-append (x ∷ xs) ys = omega (arith, length-append xs ys)

  abbrev pub is_empty : List A → Bool
  is_empty [] = true
  is_empty (x ∷ xs) = false

  -- a predicate at every entry; computes to tuples
  abbrev pub All {κ} : (A → Type κ) → List A → Type κ
  All P [] = Unit
  All P (x ∷ xs) = P x × All P xs

  unfoldable pub any : List A → (A → Bool) → Bool
  any [] p = false
  any (x ∷ xs) p = p x || any xs p

  unfoldable pub all : List A → (A → Bool) → Bool
  all [] p = true
  all (x ∷ xs) p = p x && all xs p

  -- `Vec::retain`, and `filter` followed by `collect`
  unfoldable pub retain : (A → Bool) → List A → List A
  retain p [] = []
  retain p (x ∷ xs) = let rest = retain p xs in if p x then x ∷ rest else rest

module _ {ℓ} {A : Type ℓ} where
  pub length-retain-le : (p : A → Bool) (xs : List A) → length (retain p xs) ≤ length xs
  unfolding retain
  length-retain-le p [] = omega arith
  length-retain-le p (x ∷ xs) = ground (arith, length-retain-le p xs)

  pub retain-append :
      (p : A → Bool) (xs ys : List A) → retain p (xs ++ ys) ≡ retain p xs ++ retain p ys
  unfolding retain
  retain-append p [] ys = refl
  retain-append p (x ∷ xs) ys = ground (arith, retain-append p xs ys)

  pub any-append : (xs ys : List A) (p : A → Bool) → any (xs ++ ys) p ≡ (any xs p || any ys p)
  unfolding any
  any-append [] ys p = refl
  any-append (x ∷ xs) ys p = ground (arith, any-append xs ys p)

  pub all-append : (xs ys : List A) (p : A → Bool) → all (xs ++ ys) p ≡ (all xs p && all ys p)
  unfolding all
  all-append [] ys p = refl
  all-append (x ∷ xs) ys p = ground (arith, all-append xs ys p)

  -- what all entries satisfy stays so when some are dropped
  pub all-retain : (p q : A → Bool) (xs : List A) → all xs p ≡ true → all (retain q xs) p ≡ true
  unfolding all retain
  all-retain p q [] h = refl
  all-retain p q (x ∷ xs) h = ground (arith, all-retain p q xs)

  -- the entries that are kept satisfy the test
  pub retain-all : (p : A → Bool) (xs : List A) → all (retain p xs) p ≡ true
  unfolding all retain
  retain-all p [] = refl
  retain-all p (x ∷ xs) = ground (arith, retain-all p xs)

  -- nothing that fails the test is found among the entries that are kept
  pub any-retain :
      (p q : A → Bool) (xs : List A)
      → ((x : A) → p x ≡ true → q x ≡ true)
      → any (retain q xs) p ≡ any xs p
  unfolding any retain
  any-retain p q [] h = refl
  any-retain p q (x ∷ xs) h = ground (arith, any-retain p q xs h, h x)

module _ {ℓ} {A : Type ℓ} where
  -- `sort_by`, `sort_by_key` and `sort` are stable: an entry goes before the first entry that is not
  -- less
  unfoldable pub insert_sorted : (A → A → Bool) → A → List A → List A
  insert_sorted le x [] = x ∷ []
  insert_sorted le x (y ∷ ys) =
      let rest = insert_sorted le x ys in if le x y then x ∷ y ∷ ys else y ∷ rest

  unfoldable pub sort_by : (A → A → Bool) → List A → List A
  sort_by le [] = []
  sort_by le (x ∷ xs) = insert_sorted le x (sort_by le xs)

  -- `iter().find(p)`
  unfoldable pub find_first : (A → Bool) → List A → Option A
  find_first p [] = none
  find_first p (x ∷ xs) = let rest = find_first p xs in if p x then some x else rest

  pub find_first-cons :
      (p : A → Bool) (x : A) (xs : List A)
      → find_first p (x ∷ xs) ≡ (if p x then some x else find_first p xs)
  unfolding find_first
  find_first-cons p x xs = refl

  -- how many entries pass a test
  abbrev pub count : (A → Bool) → List A → ℕ
  count p [] = 0
  count p (x ∷ xs) = let rest = count p xs in if p x then 1 + rest else rest

  count-insert_sorted :
      (le : A → A → Bool) (p : A → Bool) (x : A) (xs : List A)
      → count p (insert_sorted le x xs) ≡ count p (x ∷ xs)
  unfolding insert_sorted
  count-insert_sorted le p x [] = refl
  count-insert_sorted le p x (y ∷ ys) = ground (arith, count-insert_sorted le p x ys)

  -- sorting keeps every entry as often as it was
  pub count-sort_by :
      (le : A → A → Bool) (p : A → Bool) (xs : List A) → count p (sort_by le xs) ≡ count p xs
  unfolding sort_by
  count-sort_by le p [] = refl
  count-sort_by le p (x ∷ xs) =
      ground (arith, count-insert_sorted le p x (sort_by le xs), count-sort_by le p xs)

  pub count-retain :
      (p q : A → Bool) (xs : List A) → count p (retain q xs) ≡ count (λ x. q x && p x) xs
  unfolding retain
  count-retain p q [] = refl
  count-retain p q (x ∷ xs) = ground (arith, count-retain p q xs)

module _ {ℓ κ} {A : Type ℓ} (P : A → Type κ) where
  All-insert_sorted :
      (le : A → A → Bool) (x : A) (xs : List A) → P x → All P xs → All P (insert_sorted le x xs)
  unfolding insert_sorted
  All-insert_sorted le x [] p h = (p, tt)
  All-insert_sorted le x (y ∷ ys) p h =
      All-either (le x y) (x ∷ y ∷ ys) (y ∷ insert_sorted le x ys) (p, h)
        (h.0, All-insert_sorted le x ys p h.1)
    where
      All-either : (b : Bool) (l m : List A) → All P l → All P m → All P (if b then l else m)
      All-either true l m hl hm = hl
      All-either false l m hl hm = hm

  pub All-sort_by : (le : A → A → Bool) (xs : List A) → All P xs → All P (sort_by le xs)
  unfolding sort_by
  All-sort_by le [] h = tt
  All-sort_by le (x ∷ xs) h = All-insert_sorted le x (sort_by le xs) h.0 (All-sort_by le xs h.1)

  pub All-append : (xs ys : List A) → All P xs → All P ys → All P (xs ++ ys)
  All-append [] ys hx hy = hy
  All-append (x ∷ xs) ys hx hy = (hx.0, All-append xs ys hx.1 hy)

  pub All-retain : (q : A → Bool) (xs : List A) → All P xs → All P (retain q xs)
  unfolding retain
  All-retain q [] h = tt
  All-retain q (x ∷ xs) h = All-if (q x) x (retain q xs) h.0 (All-retain q xs h.1)
    where
      All-if : (b : Bool) (x : A) (l : List A) → P x → All P l → All P (if b then x ∷ l else l)
      All-if true x l p h = (p, h)
      All-if false x l p h = h

-- the prefix slice `v[0..n]`
abbrev pub take {ℓ} : {A : Type ℓ} → ℕ → List A → List A
take zero xs = []
take (suc n) [] = []
take (suc n) (x ∷ xs) = x ∷ take n xs

-- `==` on byte vectors
unfoldable pub same_bytes : List ℕ → List ℕ → Bool
same_bytes [] [] = true
same_bytes (x ∷ xs) (y ∷ ys) = eqb x y && same_bytes xs ys
same_bytes _ _ = false
