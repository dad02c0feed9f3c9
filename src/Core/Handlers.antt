-- ===== src/Core/Handlers.antt =====
-- core/handlers.py: requests, plans and outcomes, and the registries of handlers.
pub mod Registry
use journey_map.Prelude.{
  ℕ, String, Bool, true, false, ◌&&◌, ◌||◌, Option, none, some, List, [], ◌∷◌, is_empty, ◌==◌,
  if◌then◌else◌, any,
}
use journey_map.Prelude.Int.{ℤ, pos, pos_part, is_negative, is_nonpositive}
use journey_map.Prelude.Exec.{Result, ok, err, value_error, ◌>>=◌, ◌>>◌, raise_if}
use journey_map.Json.{JsonObject, clone_json_object, has}
use journey_map.Core.Rng.{DeterministicRng}
use journey_map.Core.Run.{TransitionIdentity}
use journey_map.Core.Scheduler.{ScheduledEvent}
use journey_map.Core.Events.{EventDraft}

pub record ActionRequest : Type 0 where
  pub action_request_id : String
  pub run_id : String
  pub actor_id : String
  pub based_on_observation_id : String
  pub submitted_at : ℕ
  pub action_type : String
  pub schema_version : ℤ
  pub payload : JsonObject
  pub correlation_id : Option String

-- `ActionRequest(...)` with its `__post_init__`.
pub make_request :
    String
    → String
    → String
    → String
    → ℤ
    → String
    → ℤ
    → JsonObject
    → Option String
    → Result ActionRequest
make_request request_id run_id actor_id observation_id submitted_at action_type version payload
      correlation_id =
    do
      raise_if
          (is_empty request_id || is_empty run_id || is_empty actor_id || is_empty observation_id)
          value_error
      raise_if (is_negative submitted_at) value_error
      raise_if (is_empty action_type) value_error
      raise_if (is_nonpositive version) value_error
      cloned ← clone_json_object payload
      ok (record {
        action_request_id = request_id;
        run_id = run_id;
        actor_id = actor_id;
        based_on_observation_id = observation_id;
        submitted_at = pos_part submitted_at;
        action_type = action_type;
        schema_version = version;
        payload = cloned;
        correlation_id = correlation_id;
      })

-- A request built again from the fields of `r`.
unfoldable pub detached : ActionRequest → Result ActionRequest
unfolding make_request
detached r =
    make_request r.action_request_id r.run_id r.actor_id r.based_on_observation_id
      (pos r.submitted_at) r.action_type r.schema_version r.payload r.correlation_id

pub record ValidationContext : Type 0 where
  pub run_id : String
  pub simulation_time : ℕ
  pub state : JsonObject

pub record ResolutionContext : Type 0 where
  pub run_id : String
  pub simulation_time : ℕ
  pub state : JsonObject
  pub rng : DeterministicRng

pub record TransitionPlan : Type 0 where
  pub set_values : JsonObject
  pub delete_keys : List String
  pub events : List EventDraft

has_duplicates : List String → Bool
has_duplicates [] = false
has_duplicates (k ∷ ks) = any (λ j. j == k) ks || has_duplicates ks

-- `TransitionPlan(...)` with its `__post_init__`.
unfoldable pub make_plan : JsonObject → List String → List EventDraft → Result TransitionPlan
unfolding has_duplicates
make_plan set_values delete_keys events = do
  raise_if (has_duplicates delete_keys) value_error
  raise_if (any (λ k. has k set_values) delete_keys) value_error
  cloned ← clone_json_object set_values
  ok (record { set_values = cloned; delete_keys = delete_keys; events = events })

-- A derived duration, which is positive, and the data to check at completion.
pub record ActionTiming : Type 0 where
  pub duration : ℕ
  pub timing_data : JsonObject

unfoldable pub make_timing : ℤ → JsonObject → Result ActionTiming
make_timing duration timing_data = do
  raise_if (is_nonpositive duration) value_error
  cloned ← clone_json_object timing_data
  ok (record { duration = pos_part duration; timing_data = cloned })

unfoldable pub detached_timing : ActionTiming → Result ActionTiming
unfolding make_timing
detached_timing t = make_timing (pos t.duration) t.timing_data

pub data ActionStatus : Type 0 where
  succeeded rejected failed : ActionStatus

pub record ActionResult : Type 0 where
  pub action_request_id : String
  pub handler_id : String
  pub transition : Option TransitionIdentity
  pub state_digest_after : String
  pub emitted_event_ids : List String
  pub status : ActionStatus
  pub reason_code : Option String
  pub started_at : ℕ
  pub resolved_at : ℕ

pub record SystemEventOutcome : Type 0 where
  pub scheduled_event_id : String
  pub handler_id : String
  pub transition : TransitionIdentity
  pub state_digest_after : String
  pub emitted_event_ids : List String

-- The two methods that a `TimedActionHandler` has beyond those of an `ActionHandler`.
pub record TimedMethods : Type 0 where
  pub prepare : ActionRequest → ValidationContext → Result ActionTiming
  pub validate_completion : ActionRequest → ActionTiming → ValidationContext → Result (Unit {0})

-- Handlers are functions of their arguments; `resolve` gives the generator back that it drew from.
pub record ActionHandler : Type 0 where
  pub handler_id : String
  pub validate : ActionRequest → ValidationContext → Result (Unit {0})
  pub timed : Option TimedMethods
  pub resolve : ActionRequest → ResolutionContext → Result (TransitionPlan × DeterministicRng)

pub record SystemEventHandler : Type 0 where
  pub handler_id : String
  pub validate : ScheduledEvent → ValidationContext → Result (Unit {0})
  pub resolve : ScheduledEvent → ResolutionContext → Result (TransitionPlan × DeterministicRng)
