-- ===== src/HashMap/Defs.antt =====
-- A map as an association list without repeated keys, built by `insert` from `empty` only.
use wasmatrix.Prelude.{
  ℕ, String, Bool, Option, none, some, List, [], ◌∷◌, map, ◌++◌, length, is_some, unwrap_or, ◌==◌,
  if◌then◌else◌,
}

pub record HashMap {ℓ} (V : Type ℓ) : Type ℓ where
  pub entries : List (String × V)

module _ {ℓ} {V : Type ℓ} where
  unfoldable pub find : String → List (String × V) → Option V
  find k [] = none
  find k ((j, v) ∷ l) = if j == k then some v else find k l

  unfoldable pub put : String → V → List (String × V) → List (String × V)
  put k v [] = (k, v) ∷ []
  put k v ((j, w) ∷ l) = let rest = put k v l in if j == k then (j, v) ∷ l else (j, w) ∷ rest

  unfoldable pub drop : String → List (String × V) → List (String × V)
  drop k [] = []
  drop k ((j, v) ∷ l) = let rest = drop k l in if j == k then rest else (j, v) ∷ rest

  unfoldable pub update : String → (V → V) → List (String × V) → List (String × V)
  update k f [] = []
  update k f ((j, v) ∷ l) =
      let rest = update k f l in if j == k then (j, f v) ∷ rest else (j, v) ∷ rest

  unfoldable pub empty : HashMap V
  empty = record { entries = [] }

  unfoldable pub get : HashMap V → String → Option V
  unfolding find
  get m k = find k m.entries

  abbrev pub contains_key : HashMap V → String → Bool
  contains_key m k = is_some (get m k)

  unfoldable pub insert : HashMap V → String → V → HashMap V
  unfolding put
  insert m k v = record { entries = put k v m.entries }

  unfoldable pub remove : HashMap V → String → HashMap V
  unfolding drop
  remove m k = record { entries = drop k m.entries }

  -- `if let Some(v) = map.get_mut(k) { … }`: the value at `k` is rewritten, if there is one
  unfoldable pub modify : HashMap V → String → (V → V) → HashMap V
  unfolding update
  modify m k f = record { entries = update k f m.entries }

  unfoldable pub keys : HashMap V → List String
  keys m = map (λ e. e.0) m.entries

  unfoldable pub values : HashMap V → List V
  values m = map (λ e. e.1) m.entries

  unfoldable pub len : HashMap V → ℕ
  len m = length m.entries

module _ {ℓ} {A : Type ℓ} where
  -- `map.entry(k).or_insert_with(Vec::new).push(a)`
  unfoldable pub push_at : HashMap (List A) → String → A → HashMap (List A)
  unfolding get insert
  push_at m k a = insert m k (unwrap_or (get m k) [] ++ (a ∷ []))
