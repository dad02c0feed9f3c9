-- ===== src/Modules/Social.antt =====
-- modules/social/contracts.py: the payloads of interactions, and of the events that record them.
pub mod Handlers
pub mod Perception
pub mod Informed
pub mod Contract
pub mod Located
pub mod Accepted
pub mod Privacy
pub mod Learned
use journey_map.Prelude.{
  String, Bool, true, false, not, ◌&&◌, ◌||◌, Option, none, some, List, [], ◌∷◌, ◌++◌, is_empty,
  ◌==◌, if◌then◌else◌, any, all, first,
}
use journey_map.Prelude.Int.{pos, eqb_ℤ}
use journey_map.Prelude.Exec.{
  Result, ok, err, validation, value_error, key_error, ◌>>=◌, ◌>>◌, raise_if, or_raise,
}
use journey_map.Json.{
  JsonObject, JsonValue, null, boolean, integer, float, text, array, object, empty, field, get?,
  get, has, erase, every, as_text, is_text,
}
use journey_map.Core.Run.{EventSourceKind, action, scheduled_event}
use journey_map.Core.Events.{EventEnvelope}

-- `EVENT_TYPES.get(action_type)`, and the search of its items for a name.
abbrev pub event_type_of : String → Option String
event_type_of action_type =
    if action_type == "ASK"
    then some "ActorAsked"
    else if action_type == "INFORM"
    then some "ActorInformed"
    else if action_type == "REQUEST"
    then some "ActorRequested"
    else none

unfoldable pub action_of : String → Option String
action_of event_type =
    if event_type == "ActorAsked"
    then some "ASK"
    else if event_type == "ActorInformed"
    then some "INFORM"
    else if event_type == "ActorRequested"
    then some "REQUEST"
    else none

abbrev pub required_keys : String → Option (List String)
required_keys action_type =
    if action_type == "ASK"
    then some ("target_actor_id" ∷ "subject_ref" ∷ "predicate" ∷ [])
    else if action_type == "INFORM"
    then some ("target_actor_id" ∷ "claim_record_id" ∷ [])
    else if action_type == "REQUEST"
    then some ("target_actor_id" ∷ "request_kind" ∷ "request_payload" ∷ [])
    else none

abbrev pub optional_keys : String → List String
optional_keys action_type = if action_type == "INFORM" then "reply_to_event_id" ∷ [] else []

abbrev pub is_among : List String → String → Bool
is_among keys k = any (λ j. j == k) keys

-- Whether each key is one of `allowed`: the difference of the key sets is empty.
abbrev pub has_only : List String → JsonObject → Bool
has_only allowed = every (λ k v. is_among allowed k)

abbrev pub is_object : JsonValue → Bool
is_object (object o) = true
is_object _ = false

-- `type(value) is str and value`
abbrev pub is_full_text : JsonValue → Bool
is_full_text (text s) = not (is_empty s)
is_full_text _ = false

-- What the loop over the payload's items asks of one of them.
abbrev pub fits : String → JsonValue → Bool
fits k v = if k == "request_payload" then is_object v else is_full_text v

unfoldable pub validate_payload : String → JsonObject → Result (Unit {0})
validate_payload action_type payload = do
  required ← or_raise (required_keys action_type) key_error
  raise_if
      (not (all (λ k. has k payload) required)
        || not (has_only (required ++ optional_keys action_type) payload))
      (validation "INVALID_PAYLOAD")
  raise_if (not (every fits payload)) (validation "INVALID_PAYLOAD")

abbrev pub is_action : EventSourceKind → Bool
is_action action = true
is_action scheduled_event = false

unfoldable pub validate_social_event : EventEnvelope → Result (Unit {0})
unfolding validate_payload
validate_social_event event = do
  action_type ← or_raise (action_of event.event_type) value_error
  raise_if (not (eqb_ℤ event.schema_version (pos 1)) || not (is_action event.source_kind))
      value_error
  sender ← or_raise (as_text (get "sender_actor_id" event.payload)) value_error
  raise_if
      (is_empty sender
        || not (is_full_text (get "location_id" event.payload))
        || is_text (get "target_actor_id" event.payload) sender)
      value_error
  validate_payload action_type (erase "location_id" (erase "sender_actor_id" event.payload))

-- `event.payload[key]`
unfoldable pub item : String → JsonObject → Result JsonValue
item key payload = or_raise (get? key payload) key_error

-- One operand of the condition: `payload[key] != value` raises the reply's error.
unfoldable pub expect : String → String → JsonObject → Result (Unit {0})
unfolding item
expect key value payload = do
  found ← item key payload
  raise_if (not (is_text found value)) (validation "INVALID_REPLY_REFERENCE")

unfoldable pub validate_reply :
    List EventEnvelope → String → String → String → String → String → Result (Unit {0})
unfolding validate_social_event expect
validate_reply events reference sender target subject predicate = do
  asked ←
      or_raise (first (λ event. event.event_id == reference) events)
        (validation "INVALID_REPLY_REFERENCE")
  raise_if (not (asked.event_type == "ActorAsked")) (validation "INVALID_REPLY_REFERENCE")
  validate_social_event asked
  expect "sender_actor_id" target asked.payload
  expect "target_actor_id" sender asked.payload
  expect "subject_ref" subject asked.payload
  expect "predicate" predicate asked.payload
