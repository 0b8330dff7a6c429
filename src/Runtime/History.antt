-- ===== src/Runtime/History.antt =====
-- What the default KV provider of a runtime answers after any invocations.
use wasmatrix.Prelude.{
  String, false, ◌≡◌, refl, none, some, List, [], ◌∷◌, ok, unwrap_or, ◌∙◌, is_some, ◌==◌, eq_refl,
  if◌then◌else◌, Option-cases, text-cases, inl, inr,
}
use wasmatrix.HashMap
use wasmatrix.HashMap.{HashMap, get-insert}
use wasmatrix.Providers.Json.{SerdeJson, index}
use wasmatrix.Providers.Kv
use wasmatrix.Providers.Kv.{KvProvider}
use wasmatrix.Providers.Kv.History.{Invocation, invoke_run, last_write, invoke-invoke_run}
use wasmatrix.Runtime.{
  kv_provider, RuntimeBackend, WasmRuntime, with_state, register_provider, invoke, new_with_backend,
  invoke_capability,
}

module _ (J : SerdeJson) where
  -- an invocation with the provider that it is for
  abbrev pub Call : Type 0
  Call = String × Invocation J

  unfoldable pub runtime_run : WasmRuntime J → List Call → WasmRuntime J
  runtime_run r [] = r
  runtime_run r ((id, c) ∷ cs) =
      runtime_run (invoke_capability r c.instance_id id c.operation c.params).1 cs

  -- the invocations for one provider
  abbrev pub calls_of : String → List Call → List (Invocation J)
  calls_of id [] = []
  calls_of id ((j, c) ∷ cs) = let rest = calls_of id cs in if j == id then c ∷ rest else rest

  abbrev Serves : WasmRuntime J → String → KvProvider → Type 1
  Serves r id p = HashMap.get r.capabilities.providers id ≡ some (kv_provider J p)

  -- an invocation of the provider itself
  Serves-own :
      (r : WasmRuntime J) (id : String) (p : KvProvider)
      → Serves r id p
      → (c : Invocation J)
      → Serves
          (invoke_capability r c.instance_id id c.operation c.params).1
          id
          (Kv.invoke J p c.instance_id c.operation c.params).1
  unfolding invoke_capability invoke
  Serves-own r id p h c =
      let after = kv_provider J (Kv.invoke J p c.instance_id c.operation c.params).1 in
      rw (invoke_capability, invoke, h)
        (get-insert r.capabilities.providers id id after ∙ rw (eq_refl id) refl)

  -- an invocation of another provider
  Serves-other :
      (r : WasmRuntime J) (id : String) (p : KvProvider)
      → Serves r id p
      → (j : String) (c : Invocation J) → (j == id) ≡ false
      → Serves (invoke_capability r c.instance_id j c.operation c.params).1 id p
  unfolding invoke_capability invoke
  Serves-other r id p h j c apart = elim (Option-cases (HashMap.get r.capabilities.providers j)) [
    | inl e ↦ rw (invoke_capability, invoke, e) h
    | inr (d, e) ↦
        let after = with_state d (d.invoke d.state c.instance_id c.operation c.params).1 in
        rw (invoke_capability, invoke, e)
          (get-insert r.capabilities.providers j id after ∙ rw (apart) h)
  ]

  Serves-run :
      (cs : List Call) (r : WasmRuntime J) (id : String) (p : KvProvider)
      → Serves r id p
      → Serves (runtime_run r cs) id (invoke_run J p (calls_of id cs))
  unfolding runtime_run invoke_run
  Serves-run [] r id p h = h
  Serves-run ((j, c) ∷ cs) r id p h = elim (text-cases j id) [
    | inl e ↦
        let q = (Kv.invoke J p c.instance_id c.operation c.params).1 in
        rw (e, eq_refl id)
          (Serves-run cs (invoke_capability r c.instance_id id c.operation c.params).1 id q
            (Serves-own r id p h c))
    | inr apart ↦ rw (apart) (
        Serves-run cs (invoke_capability r c.instance_id j c.operation c.params).1 id p
          (Serves-other r id p h j c apart))
  ]

  Serves-new :
      (backend : RuntimeBackend)
      → Serves (new_with_backend backend) "default-kv" (Kv.clear (Kv.new "default-kv"))
  unfolding new_with_backend register_provider Kv.initialize
  Serves-new backend =
      get-insert HashMap.empty "default-kv" "default-kv"
        (kv_provider J (Kv.clear (Kv.new "default-kv")))

  -- After any invocations on a new runtime, a "get" for a key on its default KV provider answers with
  -- the value of the last "set" on it, among those invocations that were for this provider, that no
  -- "delete" followed, or with the empty text; "exists" answers whether there is such a value.
  pub invoke_capability-runtime_run :
      (backend : RuntimeBackend) (cs : List Call) (instance_id key : String) (params : J.Value)
      → J.as_str (index J params "key") ≡ some key
      → let r = runtime_run (new_with_backend backend) cs in
        let value = last_write J key (calls_of "default-kv" cs) none in
        ((invoke_capability r instance_id "default-kv" "get" params).0
          ≡ ok (J.text (unwrap_or value "")))
        × ((invoke_capability r instance_id "default-kv" "exists" params).0
            ≡ ok (J.bool (is_some value)))
  unfolding invoke_capability invoke Kv.clear Kv.get HashMap.get HashMap.empty
  invoke_capability-runtime_run backend cs instance_id key params h =
      let served =
        Serves-run cs (new_with_backend backend) "default-kv" (Kv.clear (Kv.new "default-kv"))
          (Serves-new backend) in
      let answers =
        invoke-invoke_run J (calls_of "default-kv" cs) (Kv.clear (Kv.new "default-kv")) instance_id
          key params h in
      (
        rw (invoke_capability, invoke, served, answers.0) refl,
        rw (invoke_capability, invoke, served, answers.1) refl,
      )
