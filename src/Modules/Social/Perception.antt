-- ===== src/Modules/Social/Perception.antt =====
-- modules/social/perception.py: the interactions that an actor has received.
use journey_map.Prelude.{
  String, Bool, true, false, ◌&&◌, ◌||◌, none, some, List, [], ◌∷◌, ◌++◌, ◌==◌, any, is_some,
}
use journey_map.Prelude.Int.{pos}
use journey_map.Prelude.Exec.{Result, ok, ◌>>=◌, ◌>>◌}
use journey_map.Json.{
  JsonObject, JsonArray, nil, cons, array, boolean, integer, text, object, empty, field, get?, get,
  insert, as_text, is_text,
}
use journey_map.Core.Events.{EventEnvelope}
use journey_map.Modules.Social.{action_of, validate_social_event}

-- The actor is the sender or the target.
abbrev pub concerns : String → EventEnvelope → Bool
concerns actor_id event =
    is_some (action_of event.event_type)
    && (is_text (get "sender_actor_id" event.payload) actor_id
        || is_text (get "target_actor_id" event.payload) actor_id)

-- `{key: event.payload[key] for key in fields if key in event.payload}`
unfoldable pub shown_fields : List String → JsonObject → JsonObject
shown_fields [] payload = empty
shown_fields (k ∷ ks) payload = elim (get? k payload) [
  | none ↦ shown_fields ks payload
  | some v ↦ field k v (shown_fields ks payload)
]

abbrev pub fields : List String
fields =
    "sender_actor_id" ∷ "subject_ref" ∷ "predicate" ∷ "request_kind" ∷ "request_payload"
    ∷ "reply_to_event_id" ∷ []

unfoldable pub shown : EventEnvelope → JsonObject
unfolding shown_fields
shown event = field "event_id" (text event.event_id) (
    field "event_type" (text event.event_type) (
      field "simulation_time" (integer (pos event.simulation_time))
        (shown_fields fields event.payload)))

abbrev pub answer : EventEnvelope → List String
answer event = elim (event.event_type == "ActorInformed") [
  | false ↦ []
  | true ↦ elim (as_text (get "reply_to_event_id" event.payload)) [
    | none ↦ []
    | some reply ↦ reply ∷ []
  ]
]

-- The events to show, and the identities of the events that were answered.
unfoldable pub collect : List EventEnvelope → String → Result (List EventEnvelope × List String)
unfolding validate_social_event
collect [] actor_id = ok ([], [])
collect (event ∷ events) actor_id = elim (concerns actor_id event) [
  | false ↦ collect events actor_id
  | true ↦
      validate_social_event event
      >> (collect events actor_id >>= λ rest. ok (
        elim (is_text (get "target_actor_id" event.payload) actor_id) [
          | true ↦ event ∷ rest.0
          | false ↦ rest.0
        ],
        answer event ++ rest.1,
      ))
]

-- The last loop: a question says whether it was answered.
abbrev pub marked : List String → EventEnvelope → JsonObject
unfolding shown
marked answered event = elim (event.event_type == "ActorAsked") [
  | false ↦ shown event
  | true ↦ insert "answered" (boolean (any (λ id. id == event.event_id) answered)) (shown event)
]

unfoldable pub interactions : List String → List EventEnvelope → JsonArray
interactions answered [] = nil
interactions answered (event ∷ events) =
    cons (object (marked answered event)) (interactions answered events)

unfoldable pub perceive_social : List EventEnvelope → String → Result JsonObject
unfolding collect interactions
perceive_social events actor_id = do
  (incoming, answered) ← collect events actor_id
  ok (field "interactions" (array (interactions answered incoming)) empty)
