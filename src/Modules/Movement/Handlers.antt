-- ===== src/Modules/Movement/Handlers.antt =====
-- modules/movement/handlers.py: MOVE, along a route that is open when the move completes.
use journey_map.Prelude.{String, not, ◌||◌, some, [], ◌∷◌, is_empty, ◌==◌}
use journey_map.Prelude.Int.{pos, is_nonpositive}
use journey_map.Prelude.Exec.{Result, ok, validation, key_error, ◌>>=◌, ◌>>◌, raise_if, or_raise}
use journey_map.Json.{
  JsonObject, JsonValue, empty, field, object, text, get?, get, insert, has_exactly, as_object,
  as_text, as_integer, as_boolean, is_text,
}
use journey_map.Core.Rng.{DeterministicRng}
use journey_map.Core.Events.{make_draft}
use journey_map.Core.Handlers.{
  ActionRequest, ActionTiming, ValidationContext, ResolutionContext, TransitionPlan, ActionHandler,
  make_plan, make_timing,
}
use journey_map.Core.Actions.{validate_actor}
use journey_map.Modules.Movement.{Route, make_route, make_position, position_json}

-- `_object(value, reason)` and `_text(value, reason)`
unfoldable pub object_or : String → JsonValue → Result JsonObject
object_or reason value = or_raise (as_object value) (validation reason)

unfoldable pub text_or_invalid : String → JsonValue → Result String
text_or_invalid reason value = do
  s ← or_raise (as_text value) (validation reason)
  raise_if (is_empty s) (validation reason)
  ok s

unfoldable pub validate_move_payload : JsonObject → Result String
unfolding text_or_invalid
validate_move_payload payload = do
  raise_if (not (has_exactly ("route_id" ∷ []) payload)) (validation "INVALID_PAYLOAD")
  text_or_invalid "INVALID_PAYLOAD" (get "route_id" payload)

unfoldable pub check_location : JsonObject → String → Result (Unit {0})
unfolding object_or
check_location locations endpoint = do
  location ← object_or "UNKNOWN_LOCATION" (get endpoint locations)
  raise_if (not (is_text (get "location_id" location) endpoint)) (validation "INVALID_LOCATION")

-- Where the actor stands.
unfoldable pub own_location : JsonObject → String → Result String
unfolding object_or text_or_invalid
own_location movement actor_id = do
  positions ← object_or "MISSING_POSITION" (get "positions" movement)
  position ← object_or "MISSING_POSITION" (get actor_id positions)
  raise_if (not (is_text (get "actor_id" position) actor_id)) (validation "INVALID_POSITION")
  text_or_invalid "INVALID_POSITION" (get "location_id" position)

-- `_route(request, state)`
unfoldable pub find_route : ActionRequest → JsonObject → Result Route
unfolding validate_move_payload own_location check_location object_or text_or_invalid
find_route request state = do
  route_id ← validate_move_payload request.payload
  movement ← object_or "MISSING_POSITION" (get "movement" state)
  location_id ← own_location movement request.actor_id
  routes ← object_or "UNKNOWN_ROUTE" (get "routes" movement)
  row ← object_or "UNKNOWN_ROUTE" (get route_id routes)
  raise_if (not (is_text (get "route_id" row) route_id)) (validation "INVALID_ROUTE")
  origin ← text_or_invalid "INVALID_ROUTE" (get "origin" row)
  destination ← text_or_invalid "INVALID_ROUTE" (get "destination" row)
  cost ← or_raise (as_integer (get "traversal_cost" row)) (validation "INVALID_TRAVERSAL_COST")
  raise_if (is_nonpositive cost) (validation "INVALID_TRAVERSAL_COST")
  passable ← or_raise (as_boolean (get "passable" row)) (validation "INVALID_PASSABILITY")
  locations ← object_or "UNKNOWN_LOCATION" (get "locations" movement)
  check_location locations location_id
  check_location locations origin
  check_location locations destination
  raise_if (not (location_id == origin)) (validation "WRONG_ORIGIN")
  raise_if (not passable) (validation "ROUTE_IMPASSABLE")
  make_route route_id origin destination (get "traversal_cost" row) passable

unfoldable pub validate_move : ActionRequest → ValidationContext → Result (Unit {0})
unfolding find_route
validate_move request context = do
  validate_actor request context
  find_route request context.state
  ok tt

unfoldable pub prepare_move : ActionRequest → ValidationContext → Result ActionTiming
unfolding find_route
prepare_move request context = do
  route ← find_route request context.state
  make_timing (pos route.traversal_cost)
      (field "origin" (text route.origin) (field "destination" (text route.destination) empty))

unfoldable pub validate_move_completion :
    ActionRequest → ActionTiming → ValidationContext → Result (Unit {0})
unfolding find_route
validate_move_completion request timing context = do
  validate_actor request context
  route ← find_route request context.state
  origin ← or_raise (get? "origin" timing.timing_data) key_error
  destination ← or_raise (get? "destination" timing.timing_data) key_error
  raise_if (not (is_text origin route.origin) || not (is_text destination route.destination))
      (validation "ROUTE_CHANGED")

-- `positions[actor] = ActorPosition(actor, destination).to_json()`, in the context's own state.
unfoldable pub moved_actor : JsonObject → String → String → Result JsonObject
unfolding object_or
moved_actor state actor_id destination = do
  movement ← object_or "MISSING_POSITION" (get "movement" state)
  positions ← object_or "MISSING_POSITION" (get "positions" movement)
  position ← make_position actor_id destination
  ok (
      insert "positions" (object (insert actor_id (object (position_json position)) positions))
        movement)

unfoldable pub resolve_move :
    ActionRequest → ResolutionContext → Result (TransitionPlan × DeterministicRng)
unfolding find_route moved_actor
resolve_move request context = do
  route ← find_route request context.state
  movement ← moved_actor context.state request.actor_id route.destination
  draft ← make_draft "ActorMoved" (pos 1) (
      field "actor_id" (text request.actor_id) (
        field "route_id" (text route.route_id) (
          field "origin" (text route.origin) (field "destination" (text route.destination) empty))))
  plan ← make_plan (field "movement" (object movement) empty) [] (draft ∷ [])
  ok (plan, context.rng)

unfoldable pub move_handler : ActionHandler
unfolding validate_move prepare_move validate_move_completion resolve_move
move_handler = record {
  handler_id = "movement.move.v1";
  validate = validate_move;
  timed = some (record { prepare = prepare_move; validate_completion = validate_move_completion });
  resolve = resolve_move;
}
