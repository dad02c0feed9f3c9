-- ===== src/Core/Controller.antt =====
-- core/controller.py: what a controller is granted.
use journey_map.Prelude.{ℕ, String, Option}
use journey_map.Prelude.Int.{ℤ}
use journey_map.Prelude.Exec.{Result}
use journey_map.Prelude.State.{Exec}
use journey_map.Core.Handlers.{ActionRequest, ActionStatus}
use journey_map.Core.Observations.{Observation}

-- What an actor may see of a result.
pub record ControllerActionResult : Type 0 where
  pub action_request_id : String
  pub run_id : String
  pub actor_id : String
  pub status : ActionStatus
  pub reason_code : Option String
  pub started_at : ℕ
  pub resolved_at : ℕ
  pub schema_version : ℤ

-- `Controller.decide`
abbrev pub Controller : Type 0
Controller = Observation → Result ActionRequest

-- The two calls that an actor is granted, of an application `App` that they change.
pub record GamePort (App : Type 0) : Type 0 where
  pub observe : Exec App Observation
  pub submit : ActionRequest → Exec App ControllerActionResult
