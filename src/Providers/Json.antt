-- ===== src/Providers/Json.antt =====
-- serde_json as a parameter: the values, what the program makes and reads of them, and what it relies
-- on. `null` is what indexing by a missing key gives.
use wasmatrix.Prelude.{
  ℕ, String, Bool, ◌≡◌, Option, none, some, List, [], ◌∷◌, Result, unwrap_or, is_some, ◌==◌,
  if◌then◌else◌,
}

pub record SerdeJson : Type 1 where
  pub Value : Type 0
  pub null : Value
  pub bool : Bool → Value
  pub number : ℕ → Value
  pub text : String → Value
  pub array : List Value → Value
  pub object : List (String × Value) → Value
  -- `value.get(key)`
  pub get : Value → String → Option Value
  pub as_str : Value → Option String
  pub as_u64 : Value → Option ℕ
  pub as_array : Value → Option (List Value)
  pub as_object : Value → Option (List (String × Value))
  -- `value.as_object_mut()` and the insertion of a field there
  pub insert : Value → String → Value → Value
  pub to_string : Value → String
  pub from_str : String → Result Value String

pub record IsSerde (J : SerdeJson) : Type 0 where
  pub as_str-text : (s : String) → J.as_str (J.text s) ≡ some s
  pub as_array-array : (vs : List J.Value) → J.as_array (J.array vs) ≡ some vs
  pub as_str-null : J.as_str J.null ≡ none
  pub get-insert :
      (v x : J.Value) (k j : String)
      → J.get (J.insert v k x) j
        ≡ (if is_some (J.as_object v) then (if k == j then some x else J.get v j) else J.get v j)

module _ (J : SerdeJson) where
  -- `value[key]`
  abbrev pub index : J.Value → String → J.Value
  index v key = unwrap_or (J.get v key) J.null

  -- `params.get(key).and_then(Value::as_str)`
  abbrev pub text_at : J.Value → String → Option String
  text_at v key = elim (J.get v key) [ none ↦ none | some x ↦ J.as_str x ]

  -- `filter_map(|v| v.as_str().map(…)).collect()`
  abbrev pub texts_of : List J.Value → List String
  texts_of [] = []
  texts_of (v ∷ vs) =
      let rest = texts_of vs in elim (J.as_str v) [ none ↦ rest | some s ↦ s ∷ rest ]

  -- the function of the same name in both controllers that read permissions
  unfoldable pub extract_permissions : J.Value → List String
  extract_permissions params = elim (J.get params "permissions") [
    | none ↦ []
    | some v ↦ elim (J.as_array v) [ none ↦ [] | some vs ↦ texts_of vs ]
  ]
