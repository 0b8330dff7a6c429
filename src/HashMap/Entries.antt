-- ===== src/HashMap/Entries.antt =====
-- What the listed keys and values of a map have to do with `get`, and how many there are.
use wasmatrix.Prelude.{
  ◌≡◌, String, refl, suc, List, [], ◌∷◌, map, none, some, arith, ◌==◌, eq_iff, eq_refl, All,
  if◌then◌else◌, length, is_some, inl, inr, Bool-cases,
}
use mathlib.Core.Path.{subst}
use wasmatrix.HashMap.Defs.{
  HashMap, find, put, drop, update, empty, get, insert, remove, modify, values, len, contains_key,
}
use wasmatrix.HashMap.Laws.{find-put, find-drop, find-update}

module _ {ℓ} {V : Type ℓ} where
  -- no key is listed twice
  abbrev pub AllDistinct : List (String × V) → Type ℓ
  AllDistinct [] = Unit
  AllDistinct ((j, v) ∷ l) = (find j l ≡ none) × AllDistinct l

  abbrev pub IsDistinct : HashMap V → Type ℓ
  IsDistinct m = AllDistinct m.entries

  put-AllDistinct :
      (k : String) (v : V) (l : List (String × V)) → AllDistinct l → AllDistinct (put k v l)
  unfolding put find
  put-AllDistinct k v [] d = (refl, tt)
  put-AllDistinct k v ((j, w) ∷ l) d =
      ground (arith, put-AllDistinct k v l d.1, find-put k j v l, eq_iff j k, eq_iff k j)

  drop-AllDistinct : (k : String) (l : List (String × V)) → AllDistinct l → AllDistinct (drop k l)
  unfolding drop find
  drop-AllDistinct k [] d = tt
  drop-AllDistinct k ((j, w) ∷ l) d =
      ground (arith, drop-AllDistinct k l d.1, find-drop k j l, eq_iff j k, eq_iff k j)

  update-AllDistinct :
      (k : String) (f : V → V) (l : List (String × V)) → AllDistinct l → AllDistinct (update k f l)
  unfolding update find
  update-AllDistinct k f [] d = tt
  update-AllDistinct k f ((j, w) ∷ l) d =
      ground (arith, update-AllDistinct k f l d.1, find-update k j f l, eq_iff j k, eq_iff k j)

  pub insert-IsDistinct :
      (m : HashMap V) (k : String) (v : V) → IsDistinct m → IsDistinct (insert m k v)
  unfolding insert
  insert-IsDistinct m k v d = put-AllDistinct k v m.entries d

  pub remove-IsDistinct : (m : HashMap V) (k : String) → IsDistinct m → IsDistinct (remove m k)
  unfolding remove
  remove-IsDistinct m k d = drop-AllDistinct k m.entries d

  pub modify-IsDistinct :
      (m : HashMap V) (k : String) (f : V → V) → IsDistinct m → IsDistinct (modify m k f)
  unfolding modify
  modify-IsDistinct m k f d = update-AllDistinct k f m.entries d

  length-put :
      (k : String) (v : V) (l : List (String × V))
      → length (put k v l) ≡ (if is_some (find k l) then length l else suc (length l))
  unfolding put find
  length-put k v [] = refl
  length-put k v ((j, w) ∷ l) = ground (arith, length-put k v l)

  -- a new key makes the map one entry longer
  pub len-insert :
      (m : HashMap V) (k : String) (v : V)
      → len (insert m k v) ≡ (if contains_key m k then len m else suc (len m))
  unfolding len insert get
  len-insert m k v = length-put k v m.entries

  length-drop :
      (k : String) (l : List (String × V))
      → AllDistinct l
      → length l ≡ (if is_some (find k l) then suc (length (drop k l)) else length (drop k l))
  unfolding drop find
  length-drop k [] d = refl
  length-drop k ((j, w) ∷ l) d = ground (arith, length-drop k l d.1, eq_iff j k)

  -- removing a key that is there makes the map one entry shorter
  pub len-remove :
      (m : HashMap V) (k : String)
      → IsDistinct m
      → len m ≡ (if contains_key m k then suc (len (remove m k)) else len (remove m k))
  unfolding len remove get
  len-remove m k d = length-drop k m.entries d

pub empty-IsDistinct {ℓ} : (V : Type ℓ) → IsDistinct (empty {V = V})
unfolding empty
empty-IsDistinct V = tt

module _ {ℓ κ} {V : Type ℓ} (P : V → Type κ) where
  find-All :
      (l : List (String × V)) (k : String) (v : V)
      → All P (map (λ e. e.1) l)
      → find k l ≡ some v
      → P v
  unfolding find
  find-All [] k v h e = absurd (ground arith)
  find-All ((j, w) ∷ l) k v h e = elim (Bool-cases (j == k)) [
    | inl p ↦ subst P (ground arith) h.0
    | inr p ↦ find-All l k v h.1 (ground arith)
  ]

  -- what holds of all listed values holds of each value that is found
  pub get-All-values :
      (m : HashMap V) (k : String) (v : V) → All P (values m) → get m k ≡ some v → P v
  unfolding values get
  get-All-values m = find-All m.entries

  All-find :
      (l : List (String × V))
      → AllDistinct l
      → ((k : String) (v : V) → find k l ≡ some v → P v)
      → All P (map (λ e. e.1) l)
  unfolding find
  All-find [] d h = tt
  All-find ((j, w) ∷ l) d h =
      (h j w (rw eq_refl), All-find l d.1 (λ k v e. h k v (ground (arith, eq_iff j k, d.0))))

  -- in a map without repeated keys, what holds of each value that is found holds of all listed
  pub values-All :
      (m : HashMap V)
      → IsDistinct m
      → ((k : String) (v : V) → get m k ≡ some v → P v)
      → All P (values m)
  unfolding values get
  values-All m = All-find m.entries
