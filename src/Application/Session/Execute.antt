-- ===== src/Application/Session/Execute.antt =====
-- application/session.py, `_execute`: authority, the checks of a claim, and the engine.
use journey_map.Prelude.{
  ℕ, zero, suc, String, true, false, not, ◌&&◌, Option, none, some, List, [], ◌∷◌, ◌==◌, is_some,
  length,
}
use journey_map.Prelude.Int.{pos, eqb_ℤ}
use journey_map.Prelude.Exec.{
  Error, Result, ok, err, validation, assertion_error, action_handler_not_found, game_submission,
  raise_if, or_raise, ◌>>=◌, ◌>>◌,
}
use journey_map.Prelude.State.{Exec}
use journey_map.Json.{JsonObject}
use journey_map.Core.Handlers.{ActionRequest, ActionResult}
use journey_map.Core.Controller.{ControllerActionResult}
use journey_map.Core.Kernel.Submit.{submit_action}
use journey_map.Modules.Knowledge.{ActorKnowledgeView, for_actor}
use journey_map.Modules.Knowledge.Projection.{detached_events}
use journey_map.Modules.Social.{event_type_of, validate_payload}
use journey_map.Application.Claims.{validate_claim}
use journey_map.Application.Observations.History.{find}
use journey_map.Application.Session.{
  ActionTrace, raised, SimulationApplication, knowledge_snapshot, authority_reason, receipt,
  next_sequence, append_trace, public_result,
}

-- What the checks before the engine end with.
pub data Preflight : Type 0 where
  granted : Preflight
  denied : String → Preflight
  -- a failed read of what the actor knows
  unread : Error → Preflight
  -- an exception that nothing catches
  escaped : Error → Preflight

-- `except ActionValidationError as error: reason = error.reason_code`
abbrev pub denied_or_escaped : Result (Unit {0}) → Preflight
denied_or_escaped (ok _) = granted
denied_or_escaped (err (validation reason)) = denied reason
denied_or_escaped (err e) = escaped e

abbrev pub denied_or_unread : Result (Unit {0}) → Preflight
denied_or_unread (ok _) = granted
denied_or_unread (err (validation reason)) = denied reason
denied_or_unread (err e) = unread e

-- `results[offset:][0]`, if there is one.
abbrev pub result_at : ℕ → List ActionResult → Option ActionResult
result_at n [] = none
result_at zero (r ∷ rs) = some r
result_at (suc n) (r ∷ rs) = result_at n rs

module _ {W : Type 0} where
  unfoldable pub check_claim :
      Result ActorKnowledgeView → ActionRequest → SimulationApplication W → Preflight
  check_claim (err e) request app = unread e
  check_claim (ok owned) request app = denied_or_unread (do
    observation ← or_raise (find request.based_on_observation_id app.observations) assertion_error
    events ← detached_events app.kernel.events
    validate_claim request observation owned events)

  unfoldable pub check_social : String → ActionRequest → SimulationApplication W → Preflight
  unfolding check_claim
  check_social actor_id request app =
      elim (denied_or_escaped (
        raise_if (not app.social) (validation "SOCIAL_UNAVAILABLE")
        >> validate_payload request.action_type request.payload)) [
          | granted ↦ elim (request.action_type == "INFORM") [
            | true ↦ check_claim (knowledge_snapshot app >>= for_actor actor_id) request app
            | false ↦ granted
          ]
          | denied reason ↦ denied reason
          | unread e ↦ unread e
          | escaped e ↦ escaped e
        ]

  unfoldable pub preflight : String → ActionRequest → SimulationApplication W → Preflight
  unfolding check_social
  preflight actor_id request app = elim (authority_reason actor_id request app) [
    | some reason ↦ denied reason
    | none ↦
        elim (is_some (event_type_of request.action_type) && eqb_ℤ request.schema_version (pos 1)) [
          | true ↦ check_social actor_id request app
          | false ↦ granted
        ]
  ]

  abbrev pub trace_of : ActionRequest → SimulationApplication W → ActionTrace
  trace_of request app = record {
    attempt_sequence = next_sequence app;
    request = request;
    result = none;
    controller_result = none;
    boundary_reason = none;
    error_type = none;
    engine_submitted = false;
    retry_of_attempt = none;
  }

  -- What the kernel's call ended with, on the application that it left.
  unfoldable pub engine_ended :
      ℕ
      → String
      → ActionRequest
      → Result ActionResult
      → Exec (SimulationApplication W) ControllerActionResult
  engine_ended offset actor_id request (ok result) app =
      let visible = public_result actor_id request result in
      (
        ok visible,
        append_trace
            (record (trace_of request app) {
              result = some result;
              controller_result = some visible;
              engine_submitted = true;
            })
            app,
      )
  engine_ended offset actor_id request (err action_handler_not_found) app =
      let visible = receipt actor_id request "UNKNOWN_ACTION" app in
      (
        ok visible,
        append_trace
            (record (trace_of request app) {
              controller_result = some visible;
              boundary_reason = some "UNKNOWN_ACTION";
              engine_submitted = true;
            })
            app,
      )
  engine_ended offset actor_id request (err e) app = (
    err (game_submission "ENGINE_ERROR"),
    append_trace
        (record (trace_of request app) {
          result = result_at offset app.kernel.action_results;
          error_type = some (raised e);
          engine_submitted = true;
        })
        app,
  )

  module _ (sha256 : JsonObject → String) where
    unfoldable pub run_engine :
        String → ActionRequest → Exec (SimulationApplication W) ControllerActionResult
    unfolding engine_ended
    run_engine actor_id request app =
        let out = submit_action sha256 request app.kernel in
        engine_ended (length app.kernel.action_results) actor_id request out.0
          (record app { kernel = out.1 })

    unfoldable pub after_preflight :
        Preflight → String → ActionRequest → Exec (SimulationApplication W) ControllerActionResult
    unfolding run_engine
    after_preflight granted actor_id request app = run_engine actor_id request app
    after_preflight (denied reason) actor_id request app =
        let visible = receipt actor_id request reason app in
        (
          ok visible,
          append_trace
              (record (trace_of request app) {
                controller_result = some visible;
                boundary_reason = some reason;
              })
              app,
        )
    after_preflight (unread e) actor_id request app = (
      err (game_submission "KNOWLEDGE_UNAVAILABLE"),
      append_trace (record (trace_of request app) { error_type = some (raised e) }) app,
    )
    after_preflight (escaped e) actor_id request app = (err e, app)

    unfoldable pub execute :
        String → ActionRequest → Exec (SimulationApplication W) ControllerActionResult
    unfolding preflight after_preflight
    execute actor_id request app =
        after_preflight (preflight actor_id request app) actor_id request app
