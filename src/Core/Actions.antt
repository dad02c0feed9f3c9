-- ===== src/Core/Actions.antt =====
-- core/actions.py: the WAIT action, and the check of an action's actor.
use journey_map.Prelude.{ℕ, not, some, [], ◌∷◌}
use journey_map.Prelude.Int.{pos, is_nonpositive, pos_part}
use journey_map.Prelude.Exec.{
  Result, ok, validation, ◌>>=◌, ◌>>◌, raise_if, or_raise, rethrow_value_error,
}
use journey_map.Json.{JsonObject, empty, get, has_exactly, as_integer}
use journey_map.Core.Rng.{DeterministicRng}
use journey_map.Core.Entities.{get_entity}
use journey_map.Core.Handlers.{
  ActionRequest, ActionTiming, ValidationContext, ResolutionContext, TransitionPlan, ActionHandler,
  make_plan, make_timing,
}

unfoldable pub validate_actor : ActionRequest → ValidationContext → Result (Unit {0})
validate_actor request context = do
  entity ←
      rethrow_value_error (validation "INVALID_ENTITY") (get_entity context.state request.actor_id)
  or_raise entity (validation "UNKNOWN_ACTOR")
  ok tt

-- The duration of a payload that has it alone; WAIT and REST check theirs alike.
unfoldable pub validate_wait_payload : JsonObject → Result ℕ
validate_wait_payload payload = do
  raise_if (not (has_exactly ("duration" ∷ []) payload)) (validation "INVALID_PAYLOAD")
  duration ← or_raise (as_integer (get "duration" payload)) (validation "INVALID_DURATION")
  raise_if (is_nonpositive duration) (validation "INVALID_DURATION")
  ok (pos_part duration)

-- `WaitHandler.prepare`
unfoldable pub prepare_wait : ActionRequest → ValidationContext → Result ActionTiming
unfolding validate_wait_payload validate_actor
prepare_wait request context = do
  duration ← validate_wait_payload request.payload
  validate_actor request context
  make_timing (pos duration) empty

-- `WaitHandler.resolve`
unfoldable pub resolve_wait :
    ActionRequest → ResolutionContext → Result (TransitionPlan × DeterministicRng)
resolve_wait request context = do plan ← make_plan empty [] []; ok (plan, context.rng)

unfoldable pub wait_handler : ActionHandler
unfolding prepare_wait resolve_wait validate_actor
wait_handler = record {
  handler_id = "core.wait.v1";
  validate = λ request context. prepare_wait request context >> ok tt;
  timed = some (record {
    prepare = prepare_wait;
    validate_completion = λ request timing context. validate_actor request context;
  });
  resolve = resolve_wait;
}
