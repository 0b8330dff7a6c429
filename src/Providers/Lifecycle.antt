-- ===== src/Providers/Lifecycle.antt =====
-- The life cycle of the providers, crates/wasmatrix-providers/src/features/provider_lifecycle: the
-- repository (repo/mod.rs) and the service (service/mod.rs), to which the controller
-- (controller/mod.rs) only passes on. A poisoned lock is left out.
use wasmatrix.Prelude.{
  String, Bool, true, false, ◌≡◌, refl, Option, none, some, List, [], ◌∷◌, Result, ok, err, ◌==◌,
  eq_iff, format, arith, if◌then◌else◌, is_ok, not,
}
use wasmatrix.HashMap
use wasmatrix.HashMap.{HashMap, get-insert}
use wasmatrix.Core.Types.{CoreError}
use wasmatrix.Providers.Metadata.{refused}

pub data ProviderState : Type 0 where
  running stopped : ProviderState

pub record LifecycleRepository : Type 0 where
  pub states : HashMap ProviderState

abbrev pub new : LifecycleRepository
new = record { states = HashMap.empty }

unfoldable pub upsert_state : LifecycleRepository → String → ProviderState → LifecycleRepository
upsert_state r provider_id state = record { states = HashMap.insert r.states provider_id state }

unfoldable pub get_state : LifecycleRepository → String → Option ProviderState
get_state r provider_id = HashMap.get r.states provider_id

unfoldable pub start_provider : LifecycleRepository → String → LifecycleRepository
start_provider r provider_id = upsert_state r provider_id running

unfoldable pub stop_provider : LifecycleRepository → String → LifecycleRepository
stop_provider r provider_id = upsert_state r provider_id stopped

unfoldable pub ensure_provider_available :
    LifecycleRepository → String → Result (Unit {0}) CoreError × LifecycleRepository
ensure_provider_available r provider_id = elim (get_state r provider_id) [
  | some stopped ↦ (err (refused (format ("Provider '" ∷ provider_id ∷ "' is stopped" ∷ []))), r)
  | some running ↦ (ok tt, r)
  | none ↦ (ok tt, start_provider r provider_id)
]

pub data Call : Type 0 where
  starts stops ensures : String → Call

unfoldable pub run : LifecycleRepository → List Call → LifecycleRepository
run r [] = r
run r (starts id ∷ cs) = run (start_provider r id) cs
run r (stops id ∷ cs) = run (stop_provider r id) cs
run r (ensures id ∷ cs) = run (ensure_provider_available r id).1 cs

-- whether the last start or stop of a provider was a stop
abbrev pub ends_stopped : String → List Call → Bool → Bool
ends_stopped id [] before = before
ends_stopped id (starts j ∷ cs) before = ends_stopped id cs (if j == id then false else before)
ends_stopped id (stops j ∷ cs) before = ends_stopped id cs (if j == id then true else before)
ends_stopped id (ensures j ∷ cs) before = ends_stopped id cs before

abbrev pub is_stopped : Option ProviderState → Bool
is_stopped (some stopped) = true
is_stopped _ = false

is_stopped-upsert_state :
    (r : LifecycleRepository) (id j : String) (state : ProviderState)
    → is_stopped (get_state (upsert_state r j state) id)
      ≡ (if j == id then is_stopped (some state) else is_stopped (get_state r id))
unfolding get_state upsert_state
is_stopped-upsert_state r id j state = ground (arith, get-insert r.states j id state)

pub is_stopped-ensure :
    (r : LifecycleRepository) (id j : String)
    → is_stopped (get_state (ensure_provider_available r j).1 id) ≡ is_stopped (get_state r id)
unfolding ensure_provider_available start_provider
is_stopped-ensure r id j = ground (arith, is_stopped-upsert_state r id j running, eq_iff j id)

is_stopped-run :
    (cs : List Call) (r : LifecycleRepository) (id : String)
    → is_stopped (get_state (run r cs) id) ≡ ends_stopped id cs (is_stopped (get_state r id))
unfolding run start_provider stop_provider
is_stopped-run [] r id = refl
is_stopped-run (starts j ∷ cs) r id =
    rw (is_stopped-run cs (upsert_state r j running) id, is_stopped-upsert_state r id j running)
      refl
is_stopped-run (stops j ∷ cs) r id =
    rw (is_stopped-run cs (upsert_state r j stopped) id, is_stopped-upsert_state r id j stopped)
      refl
is_stopped-run (ensures j ∷ cs) r id =
    rw (is_stopped-run cs (ensure_provider_available r j).1 id, is_stopped-ensure r id j) refl

pub is_ok-ensure :
    (r : LifecycleRepository) (id : String)
    → is_ok (ensure_provider_available r id).0 ≡ not (is_stopped (get_state r id))
unfolding ensure_provider_available
is_ok-ensure r id = ground arith

-- After any starts, stops and uses of providers, a provider is available exactly if its last start or
-- stop was not a stop; one that was never named is available.
pub ensure_provider_available-run :
    (cs : List Call) (id : String)
    → is_ok (ensure_provider_available (run new cs) id).0 ≡ not (ends_stopped id cs false)
unfolding get_state
ensure_provider_available-run cs id =
    rw
      (
        is_ok-ensure (run new cs) id,
        is_stopped-run cs new id,
        HashMap.get-empty {V = ProviderState} id,
      )
      refl
