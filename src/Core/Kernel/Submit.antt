-- ===== src/Core/Kernel/Submit.antt =====
-- core/kernel.py, `submit_action`: arrival, start, duration and completion of an actor's action.
use journey_map.Prelude.{
  ℕ, ◌+◌, String, true, false, not, Option, none, some, [], ◌∷◌, ◌++◌, map, ◌==◌,
}
use journey_map.Prelude.Exec.{
  Result, ok, err, validation, value_error, handler_not_found, action_handler_not_found, raise_if,
  ◌>>=◌ as ◌>>=ᵣ◌,
}
use journey_map.Prelude.State.{Exec, pure, lift, gets, reads, modify, finally_do, ◌>>=◌, ◌>>◌}
use journey_map.Prelude.Int.{pos}
use journey_map.Json.{JsonObject, state_digest}
use journey_map.Core.Rng
use journey_map.Core.Rng.{DeterministicRng}
use journey_map.Core.Run.{action}
use journey_map.Core.Scheduler.{text_or}
use journey_map.Core.Handlers.{
  ActionRequest, ActionResult, ActionHandler, ActionTiming, ActionStatus, TransitionPlan,
  TimedMethods, succeeded, rejected, failed, detached, detached_timing,
}
use journey_map.Core.Handlers.Registry
use journey_map.Core.Kernel.State.{
  SimulationKernel, validation_context, resolution_context, ensure_available, set_active,
}
use journey_map.Core.Kernel.Commit.{Prepared, Source, commit_plan}
use journey_map.Core.Kernel.Advance.{advance_to, advance_inner, publish_events}

-- `except HandlerNotFoundError as error: raise ActionHandlerNotFoundError`
unfoldable pub as_action_miss : Result ActionHandler → Result ActionHandler
as_action_miss (err handler_not_found) = err action_handler_not_found
as_action_miss r = r

module _ {W : Type 0} where
  prepare_timing :
      Option TimedMethods → ActionRequest → SimulationKernel W → Result (Option ActionTiming)
  prepare_timing none request k = ok none
  prepare_timing (some m) request k = detached request >>=ᵣ λ copy.
      validation_context k >>=ᵣ λ context.
      m.prepare copy context >>=ᵣ λ timing. detached_timing timing >>=ᵣ λ timing'. ok (some timing')

  -- Validation at the start, and the timing of a timed handler.
  unfoldable pub start_action :
      ActionHandler → ActionRequest → SimulationKernel W → Result (Option ActionTiming)
  unfolding prepare_timing
  start_action handler request k = detached request >>=ᵣ λ copy.
      validation_context k >>=ᵣ λ context.
      handler.validate copy context >>=ᵣ λ _. prepare_timing handler.timed request k

  -- `handler.validate_completion(...)`, of a timed handler.
  unfoldable pub check_completion :
      Option TimedMethods → ActionRequest → ActionTiming → SimulationKernel W → Result (Unit {0})
  check_completion none request timing k = ok tt
  check_completion (some m) request timing k = detached request >>=ᵣ λ copy.
      detached_timing timing >>=ᵣ λ timing'.
      validation_context k >>=ᵣ λ context. m.validate_completion copy timing' context

  unfoldable pub resolve_action :
      ActionHandler
      → ActionRequest
      → SimulationKernel W
      → Result (TransitionPlan × DeterministicRng)
  resolve_action handler request k = Rng.clone k.run.rng >>=ᵣ λ rng. detached request >>=ᵣ λ copy.
      resolution_context rng k >>=ᵣ λ context. handler.resolve copy context

  unfoldable pub append_result : ActionResult → Exec (SimulationKernel W) ActionResult
  append_result result k =
      (ok result, record k { action_results = k.action_results ++ result ∷ [] })

unfoldable pub action_source : ActionRequest → Source
action_source request = record {
  source_kind = action;
  source_ref = request.action_request_id;
  causation_id = request.action_request_id;
  correlation_id = text_or request.correlation_id request.action_request_id;
}

unfoldable pub failure_result :
    ActionRequest → String → ℕ → ActionStatus → String → String → ℕ → ActionResult
failure_result request handler_id started_at status reason digest now = record {
  action_request_id = request.action_request_id;
  handler_id = handler_id;
  transition = none;
  state_digest_after = digest;
  emitted_event_ids = [];
  status = status;
  reason_code = some reason;
  started_at = started_at;
  resolved_at = now;
}

unfoldable pub success_result : ActionRequest → String → ℕ → Prepared → ℕ → ActionResult
success_result request handler_id started_at p now = record {
  action_request_id = request.action_request_id;
  handler_id = handler_id;
  transition = some p.transition;
  state_digest_after = p.digest_after;
  emitted_event_ids = map (λ e. e.event_id) p.emitted_events;
  status = succeeded;
  reason_code = none;
  started_at = started_at;
  resolved_at = now;
}

module _ {W : Type 0} (sha256 : JsonObject → String) where
  -- `_record_action_failure`
  unfoldable pub record_action_failure :
      ActionRequest → String → ℕ → ActionStatus → String → Exec (SimulationKernel W) ActionResult
  record_action_failure request handler_id started_at status reason = do
    digest ← reads (λ k. state_digest sha256 k.state)
    now ← gets (λ k. k.run.now)
    append_result (failure_result request handler_id started_at status reason digest now)

  -- Resolution, commit, result and publication.
  unfoldable pub complete_action :
      ActionHandler → ActionRequest → ℕ → Exec (SimulationKernel W) ActionResult
  complete_action handler request started_at = do
    planned ← reads (resolve_action handler request)
    prepared ← commit_plan sha256 planned.0 (action_source request) planned.1
    now ← gets (λ k. k.run.now)
    result ← append_result (success_result request handler.handler_id started_at prepared now)
    publish_events prepared.emitted_events
    pure result

  -- After the duration: an `ActionValidationError` of the completion check is a `FAILED` result.
  unfoldable pub finish_action :
      Result (Unit {0}) → ActionHandler → ActionRequest → ℕ → Exec (SimulationKernel W) ActionResult
  finish_action (ok _) handler request started_at = complete_action handler request started_at
  finish_action (err (validation reason)) handler request started_at =
      record_action_failure request handler.handler_id started_at failed reason
  finish_action (err e) handler request started_at = lift (err e)

  -- After the start: an `ActionValidationError` is a `REJECTED` result.
  unfoldable pub run_action :
      Result (Option ActionTiming)
      → ActionHandler
      → ActionRequest
      → ℕ
      → Exec (SimulationKernel W) ActionResult
  run_action (ok none) handler request started_at = complete_action handler request started_at
  run_action (ok (some timing)) handler request started_at = do
    advance_inner sha256 (pos (started_at + timing.duration))
    check ← gets (check_completion handler.timed request timing)
    finish_action check handler request started_at
  run_action (err (validation reason)) handler request started_at =
      record_action_failure request handler.handler_id started_at rejected reason
  run_action (err e) handler request started_at = lift (err e)

  -- The `try` block, entered with the guard up.
  unfoldable pub submit_inner : ActionRequest → ℕ → Exec (SimulationKernel W) ActionResult
  submit_inner request started_at = do
    handler ← reads (λ k.
        as_action_miss (Registry.get request.action_type request.schema_version k.action_registry))
    started ← gets (start_action handler request)
    run_action started handler request started_at

  unfoldable pub submit_action : ActionRequest → Exec (SimulationKernel W) ActionResult
  submit_action request = do
    reads ensure_available
    reads (λ k. raise_if (not (request.run_id == k.run.manifest.run_id)) value_error)
    advance_to sha256 (pos request.submitted_at)
    copy ← lift (detached request)
    started_at ← gets (λ k. k.run.now)
    modify (set_active true)
    finally_do (submit_inner copy started_at) (set_active false)
