-- ===== src/Core/Events.antt =====
-- core/events.py: committed events, and the synchronous bus that delivers them.
use journey_map.Prelude.{
  ℕ, String, Bool, true, false, ◌&&◌, ◌||◌, Option, none, some, List, [], ◌∷◌, ◌++◌, is_empty, ◌==◌,
  text_ltb, if◌then◌else◌, any,
}
use journey_map.Prelude.Int.{ℤ, ltb_ℤ, eqb_ℤ, is_nonpositive}
use journey_map.Prelude.Exec.{
  Result, ok, err, value_error, event_subscription, delivery, ◌>>=◌, ◌>>◌, raise_if,
}
use journey_map.Json.{JsonObject, clone_json_object}
use journey_map.Core.Run.{EventSourceKind}

pub record EventDraft : Type 0 where
  pub event_type : String
  pub schema_version : ℤ
  pub payload : JsonObject

unfoldable pub make_draft : String → ℤ → JsonObject → Result EventDraft
make_draft event_type schema_version payload = do
  raise_if (is_empty event_type) value_error
  raise_if (is_nonpositive schema_version) value_error
  detached ← clone_json_object payload
  ok (record { event_type = event_type; schema_version = schema_version; payload = detached })

pub record EventEnvelope : Type 0 where
  pub event_id : String
  pub run_id : String
  pub event_sequence : ℕ
  pub simulation_time : ℕ
  pub event_type : String
  pub schema_version : ℤ
  pub source_kind : EventSourceKind
  pub source_ref : String
  pub transition_id : String
  pub causation_id : String
  pub correlation_id : String
  pub payload : JsonObject

-- The constructor clones the payload, and so does `detached`.
unfoldable pub detached : EventEnvelope → Result EventEnvelope
detached event = do
  payload ← clone_json_object event.payload
  ok (record event { payload = payload })

-- A subscriber acts on the world outside of the kernel, and may raise.
abbrev pub EventSubscriber : Type 0 → Type 0
EventSubscriber W = EventEnvelope → W → Result (Unit {0}) × W

pub record Subscription (W : Type 0) : Type 0 where
  pub event_type : Option String
  pub priority : ℤ
  pub module_id : String
  pub subscriber_id : String
  pub subscriber : EventSubscriber W

-- A subscription with no event type takes every event.
abbrev matches : Option String → String → Bool
matches none event_type = true
matches (some t) event_type = t == event_type

module _ {W : Type 0} where
  -- Python's `<` and `==` on ordering keys.
  unfoldable pub key_ltb : Subscription W → Subscription W → Bool
  key_ltb a b =
      ltb_ℤ a.priority b.priority
      || eqb_ℤ a.priority b.priority
        && (text_ltb a.module_id b.module_id
            || a.module_id == b.module_id && text_ltb a.subscriber_id b.subscriber_id)

  unfoldable pub same_key : Subscription W → Subscription W → Bool
  same_key a b =
      eqb_ℤ a.priority b.priority
      && (a.module_id == b.module_id && a.subscriber_id == b.subscriber_id)

  -- The bus is the values of its `_subscriptions`, in the order of their insertion.
  unfoldable pub subscribe : Subscription W → List (Subscription W) → Result (List (Subscription W))
  unfolding same_key
  subscribe s bus = do
    raise_if (is_empty s.module_id || is_empty s.subscriber_id) event_subscription
    raise_if (any (λ t. same_key t s) bus) event_subscription
    ok (bus ++ s ∷ [])

  insert_by_key : Subscription W → List (Subscription W) → List (Subscription W)
  insert_by_key s [] = s ∷ []
  insert_by_key s (t ∷ ts) =
      let rest = insert_by_key s ts in if key_ltb t s then t ∷ rest else s ∷ t ∷ ts

  pub sort_by_key : List (Subscription W) → List (Subscription W)
  unfolding insert_by_key
  sort_by_key [] = []
  sort_by_key (s ∷ ss) = insert_by_key s (sort_by_key ss)

  -- A subscriber's call, with every exception turned into an `EventDeliveryError`.
  abbrev call : Subscription W → EventEnvelope → Result EventEnvelope → W → Result (Unit {0}) × W
  call s event (err e) w =
      (err (delivery event.event_id (s.priority, s.module_id, s.subscriber_id)), w)
  call s event (ok copy) w =
      let (r, w') = s.subscriber copy w in
      (
        elim r [
          | ok _ ↦ ok tt
          | err e ↦ err (delivery event.event_id (s.priority, s.module_id, s.subscriber_id))
        ],
        w',
      )

  -- The loop of `publish`; the first exception ends it.
  deliver : List (Subscription W) → EventEnvelope → W → Result (Unit {0}) × W
  deliver [] event w = (ok tt, w)
  deliver (s ∷ ss) event w = elim (matches s.event_type event.event_type) [
    | false ↦ deliver ss event w
    | true ↦
        let (r, w') = call s event (detached event) w in
        elim r [ ok _ ↦ deliver ss event w' | err e ↦ (err e, w') ]
  ]

  pub publish : List (Subscription W) → EventEnvelope → W → Result (Unit {0}) × W
  unfolding deliver sort_by_key
  publish bus event w = deliver (sort_by_key bus) event w
