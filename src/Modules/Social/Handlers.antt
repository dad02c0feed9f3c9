-- ===== src/Modules/Social/Handlers.antt =====
-- modules/social/handlers.py: ASK, INFORM and REQUEST, between two actors in one place.
use journey_map.Prelude.{String, Bool, true, false, not, some, [], ◌∷◌, ◌==◌}
use journey_map.Prelude.Int.{pos}
use journey_map.Prelude.Exec.{
  Result, ok, validation, key_error, assertion_error, ◌>>=◌, ◌>>◌, raise_if, or_raise,
  rethrow_value_error,
}
use journey_map.Json.{JsonObject, JsonValue, empty, field, text, insert, as_text, same_value}
use journey_map.Core.Ids.{◌<>◌}
use journey_map.Core.Rng.{DeterministicRng}
use journey_map.Core.Entities.{get_entity}
use journey_map.Core.Events.{make_draft}
use journey_map.Core.Handlers.{
  ActionRequest, ValidationContext, ResolutionContext, TransitionPlan, ActionHandler, make_plan,
  make_timing,
}
use journey_map.Core.Actions.{validate_actor}
use journey_map.Modules.Movement.{perceive_position}
use journey_map.Modules.Social.{event_type_of, validate_payload, item}

abbrev pub is_missing : JsonObject → Bool
is_missing empty = true
is_missing (field k v o) = false

-- One round of the loop over the two actors.
unfoldable pub locate : JsonObject → String → String → Result JsonValue
unfolding item
locate state actor_id prefix = do
  position ←
      rethrow_value_error (validation (prefix <> "INVALID_POSITION"))
        (perceive_position state actor_id)
  raise_if (is_missing position) (validation (prefix <> "MISSING_POSITION"))
  item "location_id" position

unfoldable pub interaction_location : ActionRequest → ValidationContext → Result String
unfolding locate item
interaction_location request context = do
  validate_payload request.action_type request.payload
  validate_actor request context
  value ← item "target_actor_id" request.payload
  target ← or_raise (as_text value) assertion_error
  raise_if (target == request.actor_id) (validation "SELF_TARGET")
  entity ← rethrow_value_error (validation "INVALID_TARGET") (get_entity context.state target)
  or_raise entity (validation "UNKNOWN_TARGET")
  own ← locate context.state request.actor_id ""
  other ← locate context.state target "TARGET_"
  raise_if (not (same_value own other)) (validation "OUT_OF_RANGE")
  or_raise (as_text own) assertion_error

unfoldable pub validate_social : ActionRequest → ValidationContext → Result (Unit {0})
unfolding interaction_location
validate_social request context = interaction_location request context >> ok tt

-- `{**request.payload, "sender_actor_id": …, "location_id": …}`
unfoldable pub interaction_payload : ActionRequest → String → JsonObject
interaction_payload request location =
    insert "location_id" (text location)
      (insert "sender_actor_id" (text request.actor_id) request.payload)

unfoldable pub resolve_social :
    ActionRequest → ResolutionContext → Result (TransitionPlan × DeterministicRng)
unfolding interaction_location interaction_payload
resolve_social request context = do
  location ← interaction_location request (record {
    run_id = context.run_id;
    simulation_time = context.simulation_time;
    state = context.state;
  })
  event_type ← or_raise (event_type_of request.action_type) key_error
  draft ← make_draft event_type (pos 1) (interaction_payload request location)
  plan ← make_plan empty [] (draft ∷ [])
  ok (plan, context.rng)

-- `SocialHandler(action_type)`; `lower` is Python's `str.lower`.
unfoldable pub social_handler : (String → String) → String → ActionHandler
unfolding validate_social resolve_social
social_handler lower action_type = record {
  handler_id = "social." <> lower action_type <> ".v1";
  validate = validate_social;
  timed = some (record {
    prepare = λ request context. make_timing (pos 1) empty;
    validate_completion = λ request timing context. validate_social request context;
  });
  resolve = resolve_social;
}
