-- ===== src/Providers/Concrete.antt =====
-- A small JSON that meets what the providers rely on, for the tests. Its texts are not parsed.
use wasmatrix.Prelude.{
  ℕ, String, Bool, ◌≡◌, refl, Option, none, some, List, [], ◌∷◌, ok, err, is_some, ◌==◌,
  if◌then◌else◌,
}
use wasmatrix.Providers.Json.{SerdeJson, IsSerde}

mutual
  pub data Value : Type 0 where
    null : Value
    bool : Bool → Value
    number : ℕ → Value
    text : String → Value
    array : Values → Value
    object : Fields → Value

  pub data Values : Type 0 where
    no_values : Values
    add_value : Value → Values → Values

  pub data Fields : Type 0 where
    no_fields : Fields
    add_field : String → Value → Fields → Fields

abbrev values : List Value → Values
values [] = no_values
values (v ∷ vs) = add_value v (values vs)

abbrev list_of : Values → List Value
list_of no_values = []
list_of (add_value v vs) = v ∷ list_of vs

abbrev fields : List (String × Value) → Fields
fields [] = no_fields
fields ((k, v) ∷ l) = add_field k v (fields l)

abbrev entries : Fields → List (String × Value)
entries no_fields = []
entries (add_field k v l) = (k, v) ∷ entries l

abbrev field : Fields → String → Option Value
field no_fields k = none
field (add_field j v l) k = let rest = field l k in if j == k then some v else rest

abbrev get : Value → String → Option Value
get (object l) k = field l k
get _ k = none

abbrev as_str : Value → Option String
as_str (text s) = some s
as_str _ = none

abbrev as_u64 : Value → Option ℕ
as_u64 (number n) = some n
as_u64 _ = none

abbrev as_array : Value → Option (List Value)
as_array (array vs) = some (list_of vs)
as_array _ = none

abbrev as_object : Value → Option (List (String × Value))
as_object (object l) = some (entries l)
as_object _ = none

abbrev insert : Value → String → Value → Value
insert (object l) k v = object (add_field k v l)
insert v k x = v

abbrev pub simple_json : SerdeJson
simple_json = record {
  Value = Value;
  null = null;
  bool = bool;
  number = number;
  text = text;
  array = λ vs. array (values vs);
  object = λ l. object (fields l);
  get = get;
  as_str = as_str;
  as_u64 = as_u64;
  as_array = as_array;
  as_object = as_object;
  insert = insert;
  to_string = λ v. "json";
  from_str = λ s. if s == "{}" then ok (object no_fields) else err "expected value";
}

list_of-values : (vs : List Value) → list_of (values vs) ≡ vs
list_of-values [] = refl
list_of-values (v ∷ vs) = rw (list_of-values vs) refl

get-insert :
    (v x : Value) (k j : String)
    → get (insert v k x) j
      ≡ (if is_some (as_object v) then (if k == j then some x else get v j) else get v j)
get-insert (object l) x k j = refl
get-insert null x k j = refl
get-insert (bool b) x k j = refl
get-insert (number n) x k j = refl
get-insert (text s) x k j = refl
get-insert (array vs) x k j = refl

pub simple_json-IsSerde : IsSerde simple_json
simple_json-IsSerde = record {
  as_str-text = λ s. refl;
  as_array-array = λ vs. rw (list_of-values vs) refl;
  as_str-null = refl;
  get-insert = get-insert;
}
