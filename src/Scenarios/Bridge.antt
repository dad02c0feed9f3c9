-- ===== src/Scenarios/Bridge.antt =====
-- scenarios/alderwick/bridge.py: the bridge, who sees it, and its collapse.
use journey_map.Prelude.{
  String, Bool, true, false, not, ◌||◌, ◌&&◌, List, [], ◌∷◌, ◌==◌, if◌then◌else◌,
}
use journey_map.Prelude.Int.{pos}
use journey_map.Prelude.Exec.{Result, ok, value_error, ◌>>=◌, ◌>>◌, raise_if, or_raise}
use journey_map.Json.{
  JsonObject, JsonArray, nil, cons, array, object, text, empty, field, get, insert, keys,
  has_exactly, as_object, as_text, is_text, clone_json_object,
}
use journey_map.Core.Entities.{get_entity}
use journey_map.Core.Events.{make_draft}
use journey_map.Core.Handlers.{
  ValidationContext, ResolutionContext, TransitionPlan, SystemEventHandler, make_plan,
}
use journey_map.Core.Modules.{sort_texts}
use journey_map.Core.Rng.{DeterministicRng}
use journey_map.Core.Scheduler.{ScheduledEvent}
use journey_map.Modules.Rows.{member_object}
use journey_map.Modules.Movement.{perceive_position, close_routes}

abbrev pub bridge_id : String
bridge_id = "east-bridge"

abbrev pub affected_routes : List String
affected_routes = "east-bridge-to-east-road" ∷ "east-road-to-east-bridge" ∷ []

-- `perceive_position(…).get("location_id") in OBSERVABLE_LOCATIONS`
abbrev pub is_observable : JsonObject → Bool
is_observable position =
    is_text (get "location_id" position) "east-road"
    || is_text (get "location_id" position) "east-bridge"

unfoldable pub bridge_condition : JsonObject → Result String
bridge_condition world = do
  alderwick ← or_raise (as_object (get "alderwick" world)) value_error
  bridge ← or_raise (as_object (get "east_bridge" alderwick)) value_error
  raise_if (not (is_text (get "bridge_id" bridge) bridge_id)) value_error
  condition ← or_raise (as_text (get "condition" bridge)) value_error
  raise_if (not (condition == "intact") && not (condition == "collapsed")) value_error
  ok condition

-- The loop over the actors.
unfoldable pub witnesses_among : JsonObject → List String → Result (List String)
witnesses_among world [] = ok []
witnesses_among world (actor_id ∷ ids) = do
  get_entity world actor_id
  position ← perceive_position world actor_id
  rest ← witnesses_among world ids
  ok (if is_observable position then actor_id ∷ rest else rest)

unfoldable pub bridge_witnesses : JsonObject → Result (List String)
unfolding witnesses_among
bridge_witnesses world = do
  entities ← or_raise (as_object (get "entities" world)) value_error
  witnesses_among world (sort_texts (keys entities))

-- The truth of the bridge is read where it is visible alone.
unfoldable pub perceive_bridge : JsonObject → String → Result JsonObject
unfolding bridge_condition
perceive_bridge world actor_id = do
  position ← perceive_position world actor_id
  elim (is_observable position) [
    | false ↦ ok (field "bridge" (object empty) empty)
    | true ↦ bridge_condition world >>= λ condition. ok (
        field "bridge"
          (object (field "bridge_id" (text bridge_id) (field "condition" (text condition) empty)))
          empty)
  ]

abbrev pub texts : List String → JsonArray
texts [] = nil
texts (s ∷ ss) = cons (text s) (texts ss)

abbrev pub is_collapse_payload : JsonObject → Bool
is_collapse_payload payload =
    has_exactly ("bridge_id" ∷ []) payload && is_text (get "bridge_id" payload) bridge_id

unfoldable pub validate_collapse : ScheduledEvent → ValidationContext → Result (Unit {0})
unfolding bridge_condition bridge_witnesses
validate_collapse event context = do
  raise_if (not (is_collapse_payload event.payload)) value_error
  condition ← bridge_condition context.state
  raise_if (not (condition == "intact")) value_error
  close_routes context.state affected_routes
  bridge_witnesses context.state
  ok tt

unfoldable pub resolve_collapse :
    ScheduledEvent → ResolutionContext → Result (TransitionPlan × DeterministicRng)
unfolding validate_collapse bridge_witnesses
resolve_collapse event context = do
  validate_collapse event (record {
    run_id = context.run_id;
    simulation_time = context.simulation_time;
    state = context.state;
  })
  movement ← close_routes context.state affected_routes
  witnesses ← bridge_witnesses context.state
  alderwick ← member_object "alderwick" context.state
  candidate ← clone_json_object alderwick
  bridge ← member_object "east_bridge" candidate
  draft ← make_draft "BridgeCollapsed" (pos 1) (
      field "bridge_id" (text bridge_id) (
        field "condition" (text "collapsed") (
          field "closed_route_ids" (array (texts affected_routes))
            (field "witness_actor_ids" (array (texts witnesses)) empty))))
  plan ←
      make_plan
        (field "alderwick"
          (object (
            insert "east_bridge" (object (insert "condition" (text "collapsed") bridge)) candidate))
          (field "movement" (object movement) empty))
        [] (draft ∷ [])
  ok (plan, context.rng)

unfoldable pub collapse_handler : SystemEventHandler
unfolding validate_collapse resolve_collapse
collapse_handler = record {
  handler_id = "alderwick.collapse-east-bridge.v1";
  validate = validate_collapse;
  resolve = resolve_collapse;
}
