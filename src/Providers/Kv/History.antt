-- ===== src/Providers/Kv/History.antt =====
-- What the KV provider stores after any invocations.
use wasmatrix.Prelude.{
  String, ◌≡◌, refl, Option, none, some, List, [], ◌∷◌, ok, unwrap_or, is_some, ◌==◌, arith,
  ==-apart, if◌then◌else◌, Option-cases, inl, inr,
}
use wasmatrix.HashMap.{get-insert, get-remove}
use wasmatrix.Providers.Json.{SerdeJson, index}
use wasmatrix.Providers.Kv.{KvProvider, get, set, delete, exists, invoke}

module _ (J : SerdeJson) where
  pub record Invocation : Type 0 where
    pub instance_id : String
    pub operation : String
    pub params : J.Value

  unfoldable pub invoke_run : KvProvider → List Invocation → KvProvider
  invoke_run p [] = p
  invoke_run p (c ∷ cs) = invoke_run (invoke J p c.instance_id c.operation c.params).1 cs

  -- the key that an invocation writes, with its new value or with nothing
  abbrev pub write_of : Invocation → Option (String × Option String)
  write_of c = elim (J.as_str (index J c.params "key")) [
    | none ↦ none
    | some key ↦
        if c.operation == "set"
        then elim (J.as_str (index J c.params "value")) [
          | none ↦ none
          | some value ↦ some (key, some value)
        ]
        else if c.operation == "delete"
        then some (key, none)
        else none
  ]

  abbrev pub after_write : Option (String × Option String) → String → Option String → Option String
  after_write none k old = old
  after_write (some (key, new)) k old = if key == k then new else old

  -- the value of a key after the writes of some invocations to it, the last one counting
  abbrev pub last_write : String → List Invocation → Option String → Option String
  last_write k [] old = old
  last_write k (c ∷ cs) old = last_write k cs (after_write (write_of c) k old)

  get-invoke :
      (p : KvProvider) (c : Invocation) (k : String)
      → get (invoke J p c.instance_id c.operation c.params).1 k
        ≡ after_write (write_of c) k (get p k)
  unfolding invoke get set delete
  get-invoke p c k =
      let not_set = ==-apart c.operation "get" "set" refl in
      let not_delete = ==-apart c.operation "get" "delete" refl in
      elim (Option-cases (J.as_str (index J c.params "key"))) [
        | inl e ↦ ground (arith, e)
        | inr (key, e) ↦ elim (Option-cases (J.as_str (index J c.params "value"))) [
          | inl f ↦ ground (arith, e, f, not_set, not_delete, get-remove p.storage key k)
          | inr (value, f) ↦ ground (
            arith,
            e,
            f,
            not_set,
            not_delete,
            get-insert p.storage key k value,
            get-remove p.storage key k,
          )
        ]
      ]

  get-invoke_run :
      (cs : List Invocation) (p : KvProvider) (k : String)
      → get (invoke_run p cs) k ≡ last_write k cs (get p k)
  unfolding invoke_run
  get-invoke_run [] p k = refl
  get-invoke_run (c ∷ cs) p k =
      let q = (invoke J p c.instance_id c.operation c.params).1 in
      rw (get-invoke_run cs q k, get-invoke p c k) refl

  -- After any invocations of a provider by any instances, a "get" for a key answers with the value of
  -- the last "set" on it that no "delete" followed, or with what was stored before them, or with the
  -- empty text; "exists" answers whether there is such a value; neither changes what is stored.
  pub invoke-invoke_run :
      (cs : List Invocation) (p : KvProvider) (instance_id key : String) (params : J.Value)
      → J.as_str (index J params "key") ≡ some key
      → let q = invoke_run p cs in
        let value = last_write key cs (get p key) in
        (invoke J q instance_id "get" params ≡ (ok (J.text (unwrap_or value "")), q))
        × (invoke J q instance_id "exists" params ≡ (ok (J.bool (is_some value)), q))
  unfolding invoke get exists
  invoke-invoke_run cs p instance_id key params h =
      let stored = get-invoke_run cs p key in
      (rw (invoke, get, h, stored) refl, rw (invoke, exists, h, stored) refl)
