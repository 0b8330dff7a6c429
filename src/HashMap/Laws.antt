-- ===== src/HashMap/Laws.antt =====
-- What `get` finds after each operation on a map.
use wasmatrix.Prelude.{
  String, ◌≡◌, refl, none, some, List, [], ◌∷◌, ◌++◌, unwrap_or, arith, ◌==◌, eq_iff, if◌then◌else◌,
}
use wasmatrix.HashMap.Defs.{
  HashMap, find, put, drop, update, empty, get, insert, remove, modify, push_at,
}
use mathlib.Core.Option

module _ {ℓ} {V : Type ℓ} where
  pub find-put :
      (k j : String) (v : V) (l : List (String × V))
      → find j (put k v l) ≡ (if k == j then some v else find j l)
  unfolding find put
  find-put k j v [] = refl
  find-put k j v ((i, w) ∷ l) = ground (arith, eq_iff k j, eq_iff i k, eq_iff i j, find-put k j v l)

  pub find-drop :
      (k j : String) (l : List (String × V))
      → find j (drop k l) ≡ (if k == j then none else find j l)
  unfolding find drop
  find-drop k j [] = ground arith
  find-drop k j ((i, v) ∷ l) = ground (arith, find-drop k j l, eq_iff i k, eq_iff i j, eq_iff k j)

  pub find-update :
      (k j : String) (f : V → V) (l : List (String × V))
      → find j (update k f l) ≡ (if k == j then Option.map f (find j l) else find j l)
  unfolding find update
  find-update k j f [] = ground arith
  find-update k j f ((i, v) ∷ l) =
      ground (arith, find-update k j f l, eq_iff i k, eq_iff i j, eq_iff k j)

  pub get-insert :
      (m : HashMap V) (k j : String) (v : V)
      → get (insert m k v) j ≡ (if k == j then some v else get m j)
  unfolding get insert
  get-insert m k j v = find-put k j v m.entries

  pub get-remove :
      (m : HashMap V) (k j : String) → get (remove m k) j ≡ (if k == j then none else get m j)
  unfolding get remove
  get-remove m k j = find-drop k j m.entries

  pub get-modify :
      (m : HashMap V) (k j : String) (f : V → V)
      → get (modify m k f) j ≡ (if k == j then Option.map f (get m j) else get m j)
  unfolding get modify
  get-modify m k j f = find-update k j f m.entries

pub get-empty {ℓ} : {V : Type ℓ} (k : String) → get (empty {V = V}) k ≡ none
unfolding get empty
get-empty k = refl

-- a push lengthens the vector at its key, which may be new, and no other
pub get-push_at {ℓ} :
    {A : Type ℓ} (m : HashMap (List A)) (k j : String) (a : A)
    → get (push_at m k a) j
      ≡ (if k == j then some (unwrap_or (get m k) [] ++ (a ∷ [])) else get m j)
unfolding push_at get insert
get-push_at m k j a = find-put k j _ m.entries

pub ruleset map_laws = (get-empty, get-insert, get-remove, get-modify, get-push_at)
