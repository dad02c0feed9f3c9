-- ===== src/Modules/Survival/Handlers.antt =====
-- modules/survival/handlers.py: REST, CONSUME and the survival tick.
use journey_map.Prelude.{
  ℕ, ◌+◌, ◌-◌, ◌*◌, String, Bool, true, false, not, some, List, [], ◌∷◌, ◌++◌, is_empty,
  if◌then◌else◌, leb,
}
use journey_map.Prelude.Int.{ℤ, pos, pos_part}
use journey_map.Prelude.Exec.{
  Result, ok, validation, value_error, key_error, assertion_error, ◌>>=◌, ◌>>◌, raise_if, or_raise,
}
use journey_map.Json.{
  JsonObject, empty, field, object, integer, text, get?, get, insert, has_exactly, as_text,
  as_integer, keys,
}
use journey_map.Core.Rng.{DeterministicRng}
use journey_map.Core.Scheduler.{ScheduledEvent}
use journey_map.Core.Events.{EventDraft, make_draft}
use journey_map.Core.Handlers.{
  ActionRequest, ValidationContext, ResolutionContext, TransitionPlan, ActionHandler,
  SystemEventHandler, make_plan, make_timing,
}
use journey_map.Core.Actions.{validate_actor, validate_wait_payload}
use journey_map.Modules.Rows.{member_object, change_row}
use journey_map.Modules.Inventory.{table_of, positive_quantity, decrement_candidate, sorted_items}
use journey_map.Modules.Survival.{
  SurvivalState, actor_survival, hunger_recovery, survival_candidate, make_survival, to_json,
  update_row, hunger_per_tick, fatigue_per_tick, rest_recovery_per_tick,
}

-- The payload's rule is that of WAIT, written again.
unfoldable pub validate_rest_payload : JsonObject → Result (Unit {0})
validate_rest_payload payload = do validate_wait_payload payload; ok tt

unfoldable pub validate_rest : ActionRequest → ValidationContext → Result (Unit {0})
unfolding validate_rest_payload
validate_rest request context = do
  validate_rest_payload request.payload
  validate_actor request context
  actor_survival context.state request.actor_id
  ok tt

-- `request.payload["duration"]`, asserted to be an integer; validation has made it positive.
unfoldable pub payload_duration : JsonObject → Result ℤ
payload_duration payload = do
  value ← or_raise (get? "duration" payload) key_error
  or_raise (as_integer value) assertion_error

-- `max(0, n - m)` and `min(100, n)` of natural numbers.
abbrev pub at_most_100 : ℕ → ℕ
at_most_100 n = if leb n 100 then n else 100

unfoldable pub rested : ℕ → SurvivalState → Result SurvivalState
rested duration before =
    make_survival (integer (pos before.hunger))
      (integer (pos (before.fatigue - duration * rest_recovery_per_tick)))

unfoldable pub fed : ℕ → ℕ → SurvivalState → Result SurvivalState
fed recovery quantity before =
    make_survival (integer (pos (before.hunger - recovery * quantity)))
      (integer (pos before.fatigue))

unfoldable pub ticked : SurvivalState → Result SurvivalState
ticked before =
    make_survival (integer (pos (at_most_100 (before.hunger + hunger_per_tick))))
      (integer (pos (at_most_100 (before.fatigue + fatigue_per_tick))))

unfoldable pub resolve_rest :
    ActionRequest → ResolutionContext → Result (TransitionPlan × DeterministicRng)
unfolding rested payload_duration
resolve_rest request context = do
  before ← actor_survival context.state request.actor_id
  duration ← payload_duration request.payload
  after ← rested (pos_part duration) before
  candidate ← survival_candidate context.state request.actor_id after
  draft ← make_draft "ActorRested" (pos 1) (
      field "actor_id" (text request.actor_id) (
        field "duration" (integer duration) (
          field "fatigue_before" (integer (pos before.fatigue))
            (field "fatigue_after" (integer (pos after.fatigue)) empty))))
  plan ← make_plan (field "survival" (object candidate) empty) [] (draft ∷ [])
  ok (plan, context.rng)

unfoldable pub rest_handler : ActionHandler
unfolding validate_rest resolve_rest
rest_handler = record {
  handler_id = "survival.rest.v1";
  validate = validate_rest;
  timed = some (record {
    prepare = λ request context.
        payload_duration request.payload >>= λ duration. make_timing duration empty;
    validate_completion = λ request timing context. validate_rest request context;
  });
  resolve = resolve_rest;
}

unfoldable pub validate_consume_payload : JsonObject → Result (String × ℕ)
validate_consume_payload payload = do
  raise_if (not (has_exactly ("item_id" ∷ "quantity" ∷ []) payload)) (validation "INVALID_PAYLOAD")
  item_id ← or_raise (as_text (get "item_id" payload)) (validation "INVALID_PAYLOAD")
  raise_if (is_empty item_id) (validation "INVALID_PAYLOAD")
  quantity ← positive_quantity (get "quantity" payload)
  ok (item_id, quantity)

unfoldable pub validate_consume : ActionRequest → ValidationContext → Result (Unit {0})
unfolding validate_consume_payload
validate_consume request context = do
  asked ← validate_consume_payload request.payload
  validate_actor request context
  actor_survival context.state request.actor_id
  hunger_recovery context.state asked.0
  decrement_candidate context.state request.actor_id asked.0 asked.1
  ok tt

unfoldable pub resolve_consume :
    ActionRequest → ResolutionContext → Result (TransitionPlan × DeterministicRng)
unfolding validate_consume_payload fed
resolve_consume request context = do
  asked ← validate_consume_payload request.payload
  inventory ← decrement_candidate context.state request.actor_id asked.0 asked.1
  before ← actor_survival context.state request.actor_id
  recovery ← hunger_recovery context.state asked.0
  after ← fed recovery asked.1 before
  survival ← survival_candidate context.state request.actor_id after
  draft ← make_draft "ItemConsumed" (pos 1) (
      field "actor_id" (text request.actor_id) (
        field "item_id" (text asked.0) (
          field "quantity" (integer (pos asked.1)) (
            field "hunger_before" (integer (pos before.hunger))
              (field "hunger_after" (integer (pos after.hunger)) empty)))))
  plan ←
      make_plan (field "inventory" (object inventory) (field "survival" (object survival) empty)) []
        (draft ∷ [])
  ok (plan, context.rng)

unfoldable pub consume_handler : ActionHandler
unfolding validate_consume resolve_consume
consume_handler = record {
  handler_id = "survival.consume.v1";
  validate = validate_consume;
  timed = some (record {
    prepare = λ request context. make_timing (pos 1) empty;
    validate_completion = λ request timing context. validate_consume request context;
  });
  resolve = resolve_consume;
}

unfoldable pub check_actors : JsonObject → List String → Result (Unit {0})
check_actors state [] = ok tt
check_actors state (actor ∷ actors) = do actor_survival state actor; check_actors state actors

abbrev pub is_no_payload : JsonObject → Bool
is_no_payload empty = true
is_no_payload (field k v o) = false

unfoldable pub validate_tick : ScheduledEvent → ValidationContext → Result (Unit {0})
unfolding check_actors
validate_tick event context = do
  raise_if (not (is_no_payload event.payload)) value_error
  actors ← or_raise (table_of "survival" "actors" context.state) value_error
  check_actors context.state (keys (sorted_items actors))

-- One round of the tick's loop: the rows are those of the context's state, which it changes.
unfoldable pub tick_actor : JsonObject → String → Result (JsonObject × EventDraft)
unfolding ticked
tick_actor state actor = do
  before ← actor_survival state actor
  after ← ticked before
  survival ← member_object "survival" state
  candidate ← change_row "actors" actor (update_row after) survival
  draft ← make_draft "SurvivalAdvanced" (pos 1) (
      field "actor_id" (text actor)
        (field "before" (object (to_json before)) (field "after" (object (to_json after)) empty)))
  ok (insert "survival" (object candidate) state, draft)

unfoldable pub tick_actors :
    JsonObject → List String → List EventDraft → Result (JsonObject × List EventDraft)
unfolding tick_actor
tick_actors state [] events = ok (state, events)
tick_actors state (actor ∷ actors) events = do
  done ← tick_actor state actor
  tick_actors done.0 actors (events ++ done.1 ∷ [])

unfoldable pub resolve_tick :
    ScheduledEvent → ResolutionContext → Result (TransitionPlan × DeterministicRng)
unfolding validate_tick tick_actors
resolve_tick event context = do
  validate_tick event (record {
    run_id = context.run_id;
    simulation_time = context.simulation_time;
    state = context.state;
  })
  survival ← member_object "survival" context.state
  actors ← member_object "actors" survival
  done ← tick_actors context.state (keys (sorted_items actors)) []
  candidate ← member_object "survival" done.0
  plan ← make_plan (field "survival" (object candidate) empty) [] done.1
  ok (plan, context.rng)

unfoldable pub tick_handler : SystemEventHandler
unfolding validate_tick resolve_tick
tick_handler = record {
  handler_id = "survival.tick.v1";
  validate = validate_tick;
  resolve = resolve_tick;
}
