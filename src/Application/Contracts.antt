-- ===== src/Application/Contracts.antt =====
-- application/contracts.py: the envelope of a live request, and the payloads of version 1.
use journey_map.Prelude.{String, ◌||◌, Option, none, some, is_empty, ◌==◌, if◌then◌else◌}
use journey_map.Prelude.Int.{ℤ, pos, eqb_ℤ}
use journey_map.Prelude.Exec.{
  Result, ok, err, validation, value_error, type_error, game_submission, is_value_error, ◌>>=◌,
  ◌>>◌, raise_if, or_raise,
}
use journey_map.Json.{
  JsonObject, JsonValue, null, integer, text, object, empty, field, clone_json_object,
}
use journey_map.Core.Handlers.{ActionRequest, detached}
use journey_map.Core.Actions.{validate_wait_payload}
use journey_map.Modules.Movement.Handlers.{validate_move_payload}
use journey_map.Modules.Social.{validate_payload}
use journey_map.Modules.Survival.Handlers.{validate_rest_payload, validate_consume_payload}
use journey_map.Modules.Trade.Handlers.{validate_buy_payload}
use journey_map.Modules.Knowledge.{is_missing}

abbrev pub text_or_null : Option String → JsonValue
text_or_null none = null
text_or_null (some s) = text s

-- `asdict(request)`
unfoldable pub request_json : ActionRequest → JsonObject
request_json r = field "action_request_id" (text r.action_request_id) (
    field "run_id" (text r.run_id) (
      field "actor_id" (text r.actor_id) (
        field "based_on_observation_id" (text r.based_on_observation_id) (
          field "submitted_at" (integer (pos r.submitted_at)) (
            field "action_type" (text r.action_type) (
              field "schema_version" (integer r.schema_version) (
                field "payload" (object r.payload)
                  (field "correlation_id" (text_or_null r.correlation_id) empty))))))))

-- The canonical text of the request is the one of this value, and of no other canonical value.
unfoldable pub request_fingerprint : ActionRequest → Result JsonObject
unfolding request_json
request_fingerprint request = clone_json_object (request_json request)

-- `except (TypeError, ValueError, RecursionError, AttributeError)`
abbrev pub as_invalid_request : Result ActionRequest → Result ActionRequest
as_invalid_request (ok r) = ok r
as_invalid_request (err type_error) = err (game_submission "INVALID_REQUEST")
as_invalid_request (err e) =
    if is_value_error e then err (game_submission "INVALID_REQUEST") else err e

unfoldable pub normalize_request : ActionRequest → Result ActionRequest
unfolding request_fingerprint
normalize_request value = as_invalid_request (do
  raise_if
      (is_empty value.action_request_id
        || is_empty value.run_id
        || is_empty value.actor_id
        || is_empty value.based_on_observation_id
        || is_empty value.action_type)
      value_error
  raise_if (is_missing value.correlation_id) value_error
  copy ← detached value
  request_fingerprint copy
  ok copy)

-- `ACTION_V1_VALIDATORS`
unfoldable pub validate_v1 : String → Option (JsonObject → Result (Unit {0}))
validate_v1 action_type =
    if action_type == "MOVE"
    then some (λ payload. validate_move_payload payload >> ok tt)
    else if action_type == "WAIT"
    then some (λ payload. validate_wait_payload payload >> ok tt)
    else if action_type == "ASK"
    then some (validate_payload "ASK")
    else if action_type == "INFORM"
    then some (validate_payload "INFORM")
    else if action_type == "REQUEST"
    then some (validate_payload "REQUEST")
    else if action_type == "REST"
    then some validate_rest_payload
    else if action_type == "CONSUME"
    then some (λ payload. validate_consume_payload payload >> ok tt)
    else if action_type == "BUY"
    then some (λ payload. validate_buy_payload payload >> ok tt)
    else none

abbrev pub validator_of : String → ℤ → Option (JsonObject → Result (Unit {0}))
validator_of action_type schema_version =
    if eqb_ℤ schema_version (pos 1) then validate_v1 action_type else none

unfoldable pub validate_action_contract : ActionRequest → Result (Unit {0})
unfolding validate_v1
validate_action_contract request = do
  parser ←
      or_raise (validator_of request.action_type request.schema_version)
        (validation "UNKNOWN_ACTION")
  parser request.payload
