-- ===== src/Providers/Messaging/History.antt =====
-- What the messaging provider keeps after any invocations.
use wasmatrix.Prelude.{
  String, Bool, true, false, ◌≡◌, refl, none, some, List, [], ◌∷◌, ◌++◌, ◌&&◌, ◌||◌, ◌<>◌,
  unwrap_or, is_some, is_empty, ◌==◌, ==-apart, arith, eq_iff, if◌then◌else◌, Option-cases, inl,
  inr, sym,
}
use mathlib.Core.List.{append-nil, append_assoc}
use wasmatrix.HashMap
use wasmatrix.HashMap.{HashMap, get-insert, get-remove, get-modify}
use wasmatrix.Core.Types.{has_permission}
use wasmatrix.Providers.Json.{SerdeJson, text_at, extract_permissions}
use wasmatrix.Providers.Messaging.{
  Repository, PublishedMessage, HashSet, is_subscribed, add_message, add_subscription,
  remove_subscription,
}
use wasmatrix.Providers.Messaging.Service.{
  validate_permission, assignment_of, publish, subscribe, unsubscribe, handle_invoke,
}

-- an instance without an entry is one with no topics
is_subscribed_lem :
    (r : Repository) (j u : String)
    → is_subscribed r j u
      ≡ is_some (HashMap.get (unwrap_or (HashMap.get r.subscriptions j) HashMap.empty) u)
unfolding is_subscribed
is_subscribed_lem r j u = elim (Option-cases (HashMap.get r.subscriptions j)) [
  | inl e ↦ rw (is_subscribed, e, HashMap.get-empty {V = Unit {0}} u) refl
  | inr (topics, e) ↦ rw (is_subscribed, e) refl
]

is_subscribed-add_subscription :
    (r : Repository) (i t j u : String)
    → is_subscribed (add_subscription r i t) j u
      ≡ (if (i == j) && (t == u) then true else is_subscribed r j u)
unfolding add_subscription
is_subscribed-add_subscription r i t j u =
    let topics = unwrap_or (HashMap.get r.subscriptions i) HashMap.empty in
    ground (
      arith,
      is_subscribed_lem r j u,
      is_subscribed_lem (add_subscription r i t) j u,
      get-insert r.subscriptions i j (HashMap.insert topics t tt),
      get-insert topics t u tt,
      eq_iff i j,
    )

-- a set from which nothing is found
empty_set : (s : HashSet) (u : String) → is_empty s.entries ≡ true → HashMap.get s u ≡ none
unfolding HashMap.get
empty_set s u h = go s.entries h
  where
    go :
        (l : List (String × Unit {0}))
        → is_empty l ≡ true
        → HashMap.get (record { entries = l }) u ≡ none
    go [] h = refl
    go (x ∷ l) h = absurd (ground arith)

is_subscribed-remove_subscription :
    (r : Repository) (i t j u : String)
    → is_subscribed (remove_subscription r i t).1 j u
      ≡ (if (i == j) && (t == u) then false else is_subscribed r j u)
unfolding remove_subscription
is_subscribed-remove_subscription r i t j u =
    let drop = λ (topics : HashSet). HashMap.remove topics t in
    let left = HashMap.modify r.subscriptions i drop in
    elim (Option-cases (HashMap.get r.subscriptions i)) [
      | inl e ↦ ground (
        arith,
        e,
        is_subscribed_lem r j u,
        is_subscribed_lem (remove_subscription r i t).1 j u,
        get-modify r.subscriptions i j drop,
        get-modify r.subscriptions i i drop,
        HashMap.get-empty {V = Unit {0}} u,
        eq_iff i j,
      )
      | inr (topics, e) ↦ ground (
        arith,
        e,
        is_subscribed_lem r j u,
        is_subscribed_lem (remove_subscription r i t).1 j u,
        get-modify r.subscriptions i j drop,
        get-modify r.subscriptions i i drop,
        get-remove left i j,
        get-remove topics t u,
        empty_set (HashMap.remove topics t) u,
        HashMap.get-empty {V = Unit {0}} u,
        eq_iff i j,
      )
    ]

is_subscribed-add_message :
    (r : Repository) (topic payload j u : String)
    → is_subscribed (add_message r topic payload) j u ≡ is_subscribed r j u
unfolding is_subscribed add_message
is_subscribed-add_message r topic payload j u = refl

module _ (J : SerdeJson) where
  pub record Invocation : Type 0 where
    pub instance_id : String
    pub operation : String
    pub params : J.Value

  unfoldable pub invoke_run : Repository → List Invocation → Repository
  invoke_run r [] = r
  invoke_run r (c ∷ cs) = invoke_run (handle_invoke J r c.instance_id c.operation c.params).1 cs

  -- the permissions sent along hold the general one or the one for the topic
  abbrev pub may : Invocation → String → String → Bool
  may c general topic =
      let assignment = assignment_of c.instance_id (extract_permissions J c.params) in
      has_permission assignment general || has_permission assignment ((general <> ":") <> topic)

  -- the message that an invocation publishes
  abbrev pub message_of : Invocation → List PublishedMessage
  message_of c = elim (text_at J c.params "topic") [
    | none ↦ []
    | some topic ↦ elim (text_at J c.params "payload") [
      | none ↦ []
      | some payload ↦
          if (c.operation == "publish") && may c "msg:publish" topic
          then record { topic = topic; payload = payload } ∷ []
          else []
    ]
  ]

  abbrev pub messages_of : List Invocation → List PublishedMessage
  messages_of [] = []
  messages_of (c ∷ cs) = message_of c ++ messages_of cs

  -- whether an instance is subscribed to a topic after an invocation
  abbrev pub subscribed_after : Invocation → String → String → Bool → Bool
  subscribed_after c i t before = elim (text_at J c.params "topic") [
    | none ↦ before
    | some topic ↦
        if (c.instance_id == i) && (topic == t) && may c "msg:subscribe" topic
        then (if c.operation == "subscribe"
            then true
            else if c.operation == "unsubscribe"
            then false
            else before)
        else before
  ]

  abbrev pub last_subscription : String → String → List Invocation → Bool → Bool
  last_subscription i t [] before = before
  last_subscription i t (c ∷ cs) before = last_subscription i t cs (subscribed_after c i t before)

  published-handle_invoke :
      (r : Repository) (c : Invocation)
      → (handle_invoke J r c.instance_id c.operation c.params).1.published_messages
        ≡ r.published_messages ++ message_of c
  unfolding handle_invoke publish subscribe unsubscribe validate_permission add_message
      add_subscription remove_subscription
  published-handle_invoke r c = ground (arith, append-nil r.published_messages)

  is_subscribed-handle_invoke :
      (r : Repository) (c : Invocation) (i t : String)
      → is_subscribed (handle_invoke J r c.instance_id c.operation c.params).1 i t
        ≡ subscribed_after c i t (is_subscribed r i t)
  unfolding handle_invoke publish subscribe unsubscribe validate_permission add_message
  is_subscribed-handle_invoke r c i t = elim (Option-cases (text_at J c.params "topic")) [
    | inl e ↦ ground (arith, e)
    | inr (topic, e) ↦ ground (
      arith,
      e,
      is_subscribed-add_subscription r c.instance_id topic i t,
      is_subscribed-remove_subscription r c.instance_id topic i t,
      ==-apart c.operation "publish" "subscribe" refl,
      ==-apart c.operation "publish" "unsubscribe" refl,
      is_subscribed-add_message r topic (unwrap_or (text_at J c.params "payload") "") i t,
    )
  ]

  published-invoke_run :
      (cs : List Invocation) (r : Repository)
      → (invoke_run r cs).published_messages ≡ r.published_messages ++ messages_of cs
  unfolding invoke_run
  published-invoke_run [] r = sym (append-nil r.published_messages)
  published-invoke_run (c ∷ cs) r =
      let s = (handle_invoke J r c.instance_id c.operation c.params).1 in
      rw
        (
          published-invoke_run cs s,
          published-handle_invoke r c,
          append_assoc r.published_messages (message_of c) (messages_of cs),
        )
        refl

  is_subscribed-invoke_run :
      (cs : List Invocation) (r : Repository) (i t : String)
      → is_subscribed (invoke_run r cs) i t ≡ last_subscription i t cs (is_subscribed r i t)
  unfolding invoke_run
  is_subscribed-invoke_run [] r i t = refl
  is_subscribed-invoke_run (c ∷ cs) r i t =
      let s = (handle_invoke J r c.instance_id c.operation c.params).1 in
      rw (is_subscribed-invoke_run cs s i t, is_subscribed-handle_invoke r c i t) refl

  -- After any invocations the published messages are those before, followed by the message of each
  -- "publish" whose permissions allow its topic, in order; and an instance is subscribed to a topic
  -- exactly as its own last "subscribe" or "unsubscribe" that its permissions allow for that topic
  -- left it, whatever other instances did.
  pub invoke_run-history :
      (cs : List Invocation) (r : Repository)
      → ((invoke_run r cs).published_messages ≡ r.published_messages ++ messages_of cs)
        × ((i t : String)
            → is_subscribed (invoke_run r cs) i t ≡ last_subscription i t cs (is_subscribed r i t))
  invoke_run-history cs r = (published-invoke_run cs r, is_subscribed-invoke_run cs r)
