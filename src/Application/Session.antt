-- ===== src/Application/Session.antt =====
-- application/session.py: the state of a game, and what it reads of it.
pub mod Observe
pub mod Port
pub mod Execute
pub mod Submit
pub mod Once
pub mod Counting
pub mod Steps
pub mod Reachable
pub mod Retry
pub mod Again
pub mod Conflict
pub mod Authority
pub mod Engine
use journey_map.Prelude.{
  ℕ, suc, ◌+◌, String, Bool, true, false, not, ◌||◌, ◌&&◌, Option, none, some, List, [], ◌∷◌, ◌++◌,
  ◌==◌, ◌==ℕ◌, length, first, is_some, if◌then◌else◌,
}
use journey_map.Prelude.Int.{ℤ, pos, eqb_ℤ}
use journey_map.Prelude.Exec.{
  Error, Result, ok, err, value_error, game_submission, ◌>>=◌, ◌>>◌, raise_if, or_raise,
}
use journey_map.Prelude.State.{Exec}
use journey_map.Prelude.Dict.{Dict, lookup}
use journey_map.Json.{JsonObject, clone_json_object}
use journey_map.Core.Ids.{◌<>◌}
use journey_map.Core.Run.{is_running}
use journey_map.Core.Entities.{get_entity}
use journey_map.Core.Events.{EventEnvelope}
use journey_map.Core.Handlers.{
  ActionRequest, ActionResult, ActionStatus, succeeded, rejected, failed,
}
use journey_map.Core.Controller.{ControllerActionResult}
use journey_map.Core.Observations.{Observation}
use journey_map.Core.Kernel.State.{SimulationKernel}
use journey_map.Modules.Knowledge.{KnowledgeRecord, KnowledgeLedger, history}
use journey_map.Modules.Knowledge.Projection.{
  KnowledgeProjector, KnowledgeEventRule, detached_events, project,
}
use journey_map.Modules.Social.Informed.{project_informed_knowledge}
use journey_map.Application.Reasons.{is_in, visible_domain_reasons, private_purchase_reasons}
use journey_map.Application.Observations.{ObservationPipeline}
use journey_map.Application.Observations.History.{ObservationHistory, new_history, find}
use journey_map.Application.Perception.{PerceptionExtension}

-- `type(error).__name__` is the class of an exception that was raised.
pub data ErrorType : Type 0 where
  raised : Error → ErrorType
  indeterminate_request : ErrorType

-- The request of a trace is a normalised one, of which a copy is the same.
pub record ActionTrace : Type 0 where
  pub attempt_sequence : ℕ
  pub request : ActionRequest
  pub result : Option ActionResult
  pub controller_result : Option ControllerActionResult
  pub boundary_reason : Option String
  pub error_type : Option ErrorType
  pub engine_submitted : Bool
  pub retry_of_attempt : Option ℕ

pub record RequestEntry : Type 0 where
  pub actor_id : String
  pub fingerprint : JsonObject
  pub attempt_sequence : ℕ
  pub receipt : Option ControllerActionResult
  pub error_code : String

pub record SimulationApplication (W : Type 0) : Type 0 where
  pub kernel : SimulationKernel W
  pub knowledge : KnowledgeLedger
  pub knowledge_projector : Option KnowledgeProjector
  pub perception_extension : Option PerceptionExtension
  pub social : Bool
  pub include_last_receipt : Bool
  pub pipeline : ObservationPipeline
  pub observations : ObservationHistory
  pub traces : List ActionTrace
  pub busy : Bool
  pub requests : Dict RequestEntry

-- `str(status)`
abbrev pub status_value : ActionStatus → String
status_value succeeded = "SUCCEEDED"
status_value rejected = "REJECTED"
status_value failed = "FAILED"

abbrev pub is_hidden : String → String → Bool
is_hidden action_type reason =
    not (is_in visible_domain_reasons reason)
    || (action_type == "BUY" && is_in private_purchase_reasons reason)

unfoldable pub public_reason : String → ActionStatus → Option String → Option String
public_reason action_type status none = none
public_reason action_type status (some reason) =
    if is_hidden action_type reason then some ("ACTION_" <> status_value status) else some reason

unfoldable pub public_result : String → ActionRequest → ActionResult → ControllerActionResult
unfolding public_reason
public_result actor_id request result = record {
  action_request_id = request.action_request_id;
  run_id = request.run_id;
  actor_id = actor_id;
  status = result.status;
  reason_code = public_reason request.action_type result.status result.reason_code;
  started_at = result.started_at;
  resolved_at = result.resolved_at;
  schema_version = pos 1;
}

unfoldable pub check_owners : JsonObject → List KnowledgeRecord → Result (Unit {0})
check_owners world [] = ok tt
check_owners world (r ∷ rs) = do
  found ← get_entity world r.actor_id
  or_raise found value_error
  check_owners world rs

abbrev event_rules : Bool → List KnowledgeEventRule
event_rules true = project_informed_knowledge ∷ []
event_rules false = []

module _ {W : Type 0} where
  unfoldable pub make_application :
      SimulationKernel W
      → KnowledgeLedger
      → ObservationPipeline
      → Option KnowledgeProjector
      → Option PerceptionExtension
      → Bool
      → Bool
      → Result (SimulationApplication W)
  unfolding check_owners
  make_application kernel knowledge pipeline projector extension social include_last_receipt = do
    raise_if
        (not (knowledge.run_id == kernel.run.manifest.run_id)
          || not (eqb_ℤ (pos knowledge.initial_time) kernel.run.manifest.start_time))
        value_error
    records ← history knowledge
    world ← clone_json_object kernel.state
    check_owners world records
    ok (record {
      kernel = kernel;
      knowledge = knowledge;
      knowledge_projector = projector;
      perception_extension = extension;
      social = social;
      include_last_receipt = include_last_receipt;
      pipeline = pipeline;
      observations = new_history kernel.run.manifest.run_id;
      traces = [];
      busy = false;
      requests = [];
    })

  -- The ledger, or the snapshot of a projection of it.
  unfoldable pub knowledge_snapshot : SimulationApplication W → Result KnowledgeLedger
  knowledge_snapshot app = elim (is_some app.knowledge_projector || app.social) [
    | false ↦ ok app.knowledge
    | true ↦ detached_events app.kernel.events >>= λ events.
        project app.knowledge events app.knowledge_projector (event_rules app.social)
  ]

  abbrev pub set_busy : Bool → SimulationApplication W → SimulationApplication W
  set_busy busy app = record app { busy = busy }

  unfoldable pub enter : Exec (SimulationApplication W) (Unit {0})
  enter app = elim (app.busy || not (is_running app.kernel.run.status)) [
    | true ↦ (err (game_submission "GAME_UNAVAILABLE"), app)
    | false ↦ (ok tt, set_busy true app)
  ]

  -- What `_authority_reason` asks of the observation that a request is based on.
  unfoldable pub observation_reason :
      Option Observation → String → ActionRequest → SimulationApplication W → Option String
  observation_reason none actor_id request app = some "UNKNOWN_OBSERVATION"
  observation_reason (some observation) actor_id request app =
      if not (observation.run_id == request.run_id) || not (observation.actor_id == actor_id)
      then some "UNAUTHORIZED_OBSERVATION"
      else if not (request.submitted_at ==ℕ app.kernel.run.now)
      then some "INVALID_SUBMISSION_TIME"
      else none

  unfoldable pub authority_reason : String → ActionRequest → SimulationApplication W → Option String
  unfolding observation_reason
  authority_reason actor_id request app =
      if not (request.run_id == app.kernel.run.manifest.run_id)
      then some "WRONG_RUN"
      else if not (request.actor_id == actor_id)
      then some "WRONG_ACTOR"
      else observation_reason (find request.based_on_observation_id app.observations) actor_id
          request app

  unfoldable pub receipt :
      String → ActionRequest → String → SimulationApplication W → ControllerActionResult
  receipt actor_id request reason app = record {
    action_request_id = request.action_request_id;
    run_id = app.kernel.run.manifest.run_id;
    actor_id = actor_id;
    status = rejected;
    reason_code = some reason;
    started_at = app.kernel.run.now;
    resolved_at = app.kernel.run.now;
    schema_version = pos 1;
  }

  abbrev pub next_sequence : SimulationApplication W → ℕ
  next_sequence app = length app.traces + 1

  abbrev pub append_trace : ActionTrace → SimulationApplication W → SimulationApplication W
  append_trace trace app = record app { traces = app.traces ++ trace ∷ [] }
