-- ===== src/Scenarios/Acquired.antt =====
-- scenarios/alderwick/knowledge.py: what actors learn of the bridge by seeing it, and
-- `perceive_resources` of scenarios/alderwick/resources.py.
pub mod Once
use journey_map.Prelude.{
  ℕ, ◌+◌, String, text_ltb, Bool, true, false, not, ◌||◌, ◌&&◌, none, List, [], ◌∷◌, ◌++◌, ◌==◌,
  is_empty, if◌then◌else◌,
}
use journey_map.Prelude.Int.{pos, eqb_ℤ}
use journey_map.Prelude.Exec.{Result, ok, value_error, ◌>>=◌, ◌>>◌, raise_if, or_raise}
use journey_map.Json.{
  JsonObject, JsonValue, JsonArray, nil, cons, object, text, get, is_text, as_text, insert,
}
use journey_map.Core.Ids.{◌<>◌, format_08d}
use journey_map.Core.Events.{EventEnvelope}
use journey_map.Core.Modules.{mem}
use journey_map.Core.Observations.{as_array}
use journey_map.Modules.Knowledge.{KnowledgeRecord, make_record}
use journey_map.Modules.Social.{is_action}
use journey_map.Modules.Perceptions.{perceive_inventory, perceive_survival, perceive_trade}
use journey_map.Scenarios.Bridge.{bridge_id, perceive_bridge}

-- `world.get("destination") in OBSERVABLE_LOCATIONS`, and the entries of a list of actors.
abbrev is_observable_place : JsonObject → Bool
is_observable_place payload =
    is_text (get "destination" payload) "east-road"
    || is_text (get "destination" payload) "east-bridge"

unfoldable pub actor_name : JsonValue → Result String
actor_name value = do
  actor ← or_raise (as_text value) value_error
  raise_if (is_empty actor) value_error
  ok actor

unfoldable pub actor_names : JsonArray → Result (List String)
unfolding actor_name
actor_names nil = ok []
actor_names (cons value values) = do
  actor ← actor_name value
  actors ← actor_names values
  ok (actor ∷ actors)

-- `actors == sorted(set(actors))`: the actors are in strictly ascending order.
abbrev is_ascending : List String → Bool
is_ascending [] = true
is_ascending (a ∷ []) = true
is_ascending (a ∷ b ∷ rest) = text_ltb a b && is_ascending (b ∷ rest)

-- The actors that an event shows the collapsed bridge to, and whether it is collapsed after it.
unfoldable pub collapse_witnesses : EventEnvelope → Bool → Result (List String × Bool)
unfolding actor_names
collapse_witnesses event collapsed = do
  raise_if
      (not (eqb_ℤ event.schema_version (pos 1))
        || is_action event.source_kind
        || not (is_text (get "bridge_id" event.payload) bridge_id)
        || not (is_text (get "condition" event.payload) "collapsed"))
      value_error
  witnesses ← or_raise (as_array (get "witness_actor_ids" event.payload)) value_error
  actors ← actor_names witnesses
  raise_if (collapsed || not (is_ascending actors)) value_error
  ok (actors, true)

unfoldable pub mover : EventEnvelope → Bool → Result (List String × Bool)
unfolding actor_name
mover event collapsed = do
  raise_if (not (eqb_ℤ event.schema_version (pos 1)) || not (is_action event.source_kind))
      value_error
  actor ← actor_name (get "actor_id" event.payload)
  ok ((if collapsed && is_observable_place event.payload then actor ∷ [] else []), collapsed)

unfoldable pub shown_to : EventEnvelope → Bool → Result (List String × Bool)
unfolding collapse_witnesses mover
shown_to event collapsed = elim (event.event_type == "BridgeCollapsed") [
  | true ↦ collapse_witnesses event collapsed
  | false ↦ elim (event.event_type == "ActorMoved") [
    | true ↦ mover event collapsed
    | false ↦ ok ([], collapsed)
  ]
]

abbrev direct_record : EventEnvelope → ℕ → String → KnowledgeRecord
direct_record event index actor = record {
  knowledge_record_id = event.event_id <> ":alderwick-direct-v1:" <> format_08d index;
  run_id = event.run_id;
  actor_id = actor;
  subject_ref = bridge_id;
  predicate = "condition";
  value = text "collapsed";
  source_kind = "DIRECT_OBSERVATION";
  source_ref = event.event_id;
  learned_at = event.simulation_time;
  supersedes_id = none;
  schema_version = pos 1;
}

-- The loop over the actors of an event, from an index: the new records, and who has learned.
unfoldable pub learn :
    EventEnvelope → ℕ → List String → List String → Result (List KnowledgeRecord × List String)
learn event index learned [] = ok ([], learned)
learn event index learned (actor ∷ actors) =
    let known = mem actor learned in
    let rest = learn event (index + 1) (if known then learned else actor ∷ learned) actors in
    if known
    then rest
    else (make_record (direct_record event index actor) >>= λ made.
        rest >>= λ later. ok (made ∷ later.0, later.1))

unfoldable pub fold_events : Bool → List String → List EventEnvelope → Result (List KnowledgeRecord)
unfolding shown_to learn
fold_events collapsed learned [] = ok []
fold_events collapsed learned (event ∷ events) = do
  shown ← shown_to event collapsed
  acquired ← learn event 1 learned shown.0
  later ← fold_events shown.1 acquired.1 events
  ok (acquired.0 ++ later)

unfoldable pub project_bridge_knowledge : List EventEnvelope → Result (List KnowledgeRecord)
unfolding fold_events
project_bridge_knowledge events = fold_events false [] events

unfoldable perceive_resources : JsonObject → String → Result JsonObject
perceive_resources world actor_id = do
  seen ← perceive_bridge world actor_id
  held ← perceive_inventory world actor_id
  needs ← perceive_survival world actor_id
  goods ← perceive_trade world actor_id
  ok (
      insert "trade" (object goods)
        (insert "survival" (object needs) (insert "inventory" (object held) seen)))
