-- ===== src/Application/Turns.antt =====
-- application/turns.py: one turn of a controller.
pub mod Codes
pub mod Outcomes
use journey_map.Prelude.{String, Bool, true, false, not, ◌||◌, Option, none, some, ◌==◌, ◌==ℕ◌}
use journey_map.Prelude.Exec.{Error, Result, ok, err, validation, game_submission, ◌>>=◌, ◌>>◌}
use journey_map.Prelude.State.{Exec}
use journey_map.Core.Controller.{Controller, ControllerActionResult, GamePort}
use journey_map.Core.Handlers.{ActionRequest}
use journey_map.Core.Observations.{Observation, validate_observation_v1}
use journey_map.Application.Contracts.{normalize_request, validate_action_contract}

-- A request in it is a normalised one, of which a copy is the same.
pub record ControllerTurnResult : Type 0 where
  pub observation : Option Observation
  pub request : Option ActionRequest
  pub receipt : Option ControllerActionResult
  pub failure_code : Option String

abbrev pub failure : Option Observation → Option ActionRequest → String → ControllerTurnResult
failure observation request code = record {
  observation = observation;
  request = request;
  receipt = none;
  failure_code = some code;
}

-- The request is not of this observation.
abbrev pub is_foreign : ActionRequest → Observation → Bool
is_foreign request observation =
    not (request.run_id == observation.run_id)
    || not (request.actor_id == observation.actor_id)
    || not (request.based_on_observation_id == observation.observation_id)
    || not (request.submitted_at ==ℕ observation.simulation_time)

-- The `try` block of the submission.
unfoldable pub submitted :
    Observation → ActionRequest → Result ControllerActionResult → Result ControllerTurnResult
submitted observation request (ok receipt) = ok (record {
  observation = some observation;
  request = some request;
  receipt = some receipt;
  failure_code = none;
})
submitted observation request (err (game_submission code)) =
    ok (failure (some observation) (some request) "SUBMISSION_ERROR")
submitted observation request (err e) = err e

module _ {App : Type 0} where
  unfoldable pub submit_turn :
      GamePort App → Observation → ActionRequest → Result (Unit {0}) → Exec App ControllerTurnResult
  unfolding submitted
  submit_turn game observation request (ok _) app =
      let out = game.submit request app in (submitted observation request out.0, out.1)
  submit_turn game observation request (err (validation reason)) app =
      (ok (failure (some observation) (some request) reason), app)
  submit_turn game observation request (err e) app = (err e, app)

  unfoldable pub request_turn :
      GamePort App → Observation → Result ActionRequest → Exec App ControllerTurnResult
  unfolding submit_turn
  request_turn game observation (ok request) app = elim (is_foreign request observation) [
    | true ↦ (ok (failure (some observation) (some request) "INVALID_CONTROLLER_OUTPUT"), app)
    | false ↦ submit_turn game observation request (validate_action_contract request) app
  ]
  request_turn game observation (err (game_submission code)) app =
      (ok (failure (some observation) none "INVALID_CONTROLLER_OUTPUT"), app)
  request_turn game observation (err e) app = (err e, app)

  unfoldable pub decide_turn :
      GamePort App → Observation → Result ActionRequest → Exec App ControllerTurnResult
  unfolding request_turn
  decide_turn game observation (err e) app =
      (ok (failure (some observation) none "CONTROLLER_ERROR"), app)
  decide_turn game observation (ok output) app =
      request_turn game observation (normalize_request output) app

  unfoldable pub observe_turn :
      GamePort App → Controller → Result Observation → Exec App ControllerTurnResult
  unfolding decide_turn
  observe_turn game controller (err e) app = (ok (failure none none "OBSERVATION_UNAVAILABLE"), app)
  observe_turn game controller (ok observation) app =
      decide_turn game observation (controller observation) app

  unfoldable pub run_controller_turn : GamePort App → Controller → Exec App ControllerTurnResult
  unfolding observe_turn
  run_controller_turn game controller app =
      let out = game.observe app in
      observe_turn game controller
        (out.0 >>= λ observation. validate_observation_v1 observation >> ok observation) out.1
