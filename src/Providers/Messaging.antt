-- ===== src/Providers/Messaging.antt =====
-- `InMemoryMessagingProviderRepository` of
-- crates/wasmatrix-providers/src/features/messaging_provider/repo/mod.rs. A `HashSet` of topics is a
-- map into the unit type. A poisoned lock is left out.
pub mod Service
pub mod History
use wasmatrix.Prelude.{
  ℕ, String, Bool, true, false, Option, none, some, List, [], ◌∷◌, ◌++◌, length, is_empty,
  unwrap_or, if◌then◌else◌,
}
use mathlib.Core.Option
use wasmatrix.HashMap
use wasmatrix.HashMap.{HashMap}

pub record PublishedMessage : Type 0 where
  pub topic : String
  pub payload : String

abbrev pub HashSet : Type 0
HashSet = HashMap (Unit {0})

pub record Repository : Type 0 where
  pub subscriptions : HashMap HashSet
  pub published_messages : List PublishedMessage

abbrev pub new : Repository
new = record { subscriptions = HashMap.empty; published_messages = [] }

abbrev pub published_count : Repository → ℕ
published_count r = length r.published_messages

unfoldable pub is_subscribed : Repository → String → String → Bool
is_subscribed r instance_id topic =
    unwrap_or
      (Option.map (λ (topics : HashSet). HashMap.contains_key topics topic)
        (HashMap.get r.subscriptions instance_id))
      false

unfoldable pub add_message : Repository → String → String → Repository
add_message r topic payload = record r {
  published_messages = r.published_messages ++ (record { topic = topic; payload = payload } ∷ []);
}

unfoldable pub add_subscription : Repository → String → String → Repository
add_subscription r instance_id topic = record r {
  subscriptions =
      HashMap.insert r.subscriptions instance_id (
        HashMap.insert (unwrap_or (HashMap.get r.subscriptions instance_id) HashMap.empty) topic
          tt);
}

unfoldable pub remove_subscription : Repository → String → String → Bool × Repository
remove_subscription r instance_id topic =
    let removed =
      unwrap_or
        (Option.map (λ (topics : HashSet). HashMap.contains_key topics topic)
          (HashMap.get r.subscriptions instance_id))
        false in
    let left =
      HashMap.modify r.subscriptions instance_id
        (λ (topics : HashSet). HashMap.remove topics topic) in
    let now_empty =
      unwrap_or
        (Option.map (λ (topics : HashSet). is_empty topics.entries) (HashMap.get left instance_id))
        false in
    (
      removed,
      record r { subscriptions = if now_empty then HashMap.remove left instance_id else left },
    )
