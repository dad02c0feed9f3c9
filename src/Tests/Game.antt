-- ===== src/Tests/Game.antt =====
-- The theorems on the application at a small game.
use journey_map.Prelude.{
  ℕ, ◌+◌, ◌≤◌, String, ◌≡◌, ◌⊎◌, refl, false, not, ◌||◌, none, some, [], true, length,
}
use journey_map.Prelude.Int.{pos}
use journey_map.Prelude.Exec.{ok}
use journey_map.Prelude.State.{◌>>=◌}
use journey_map.Prelude.Dict.{lookup, insert}
use journey_map.Json.{
  JsonObject, nil, array, empty, field, object, integer, text, get?, has_exactly, keys,
  clone_json_object, is_canonical_object, canonical_object, same_object,
}
use journey_map.Core.Ids.{format_08d}
use journey_map.Core.Run.{is_running}
use journey_map.Core.Actions.{validate_wait_payload}
use journey_map.Core.Handlers.{ActionRequest, rejected, succeeded, detached}
use journey_map.Core.Controller.{ControllerActionResult, GamePort}
use journey_map.Core.Observations.{Observation, PerceptionContext, validate_observation_v1}
use journey_map.Core.Kernel.State.{SimulationKernel}
use journey_map.Modules.Knowledge
use journey_map.Modules.Knowledge.{KnowledgeLedger, detached_records}
use journey_map.Application.Contracts.{
  normalize_request, request_fingerprint, request_json, validate_action_contract,
}
use journey_map.Application.Observations.{ObservationPipeline}
use journey_map.Application.Observations.History.{new_history, generate}
use journey_map.Application.Observations.Sequence.{IsHistory, generate-IsHistory}
use journey_map.Application.Session.{
  SimulationApplication, make_application, check_owners, authority_reason, receipt, enter,
}
use journey_map.Application.Session.Execute.{execute, preflight, after_preflight}
use journey_map.Application.Session.Observe.{observe}
use journey_map.Application.Session.Submit.{submit, submit_inner, attempt, first_attempt, settled}
use journey_map.Application.Session.Once.{engine_count}
use journey_map.Application.Session.Reachable.{started, observed, submitted, reachable-once}
use journey_map.Application.Session.Engine.{IsEngineCall, submit-IsEngineCall}
use journey_map.Application.Session.Again.{submit-again}
use journey_map.Application.Turns.{ControllerTurnResult, run_controller_turn}
use journey_map.Application.Turns.Outcomes.{IsRefused, IsSubmitted, run_controller_turn-IsTurn}
use journey_map.Adapters.EventMemory.{
  EventTraceArchive, new_archive, begin, next_context, is_backward, make_event_context,
  check_traces, close, checked_request, is_bound, retried, close_new, active_context,
}
use journey_map.Adapters.EventMemory.Archive.{IsArchive, close-IsArchive}
use journey_map.Tests.Fixtures.{kernel, request}

abbrev sha256 : JsonObject → String
sha256 _ = "digest"

abbrev canonical_bytes : JsonObject → ℕ
canonical_bytes _ = 100

abbrev mara : JsonObject
mara = field "entity_id" (text "mara") (field "entity_type" (text "actor") empty)

abbrev world : SimulationKernel ℕ
world = record kernel { state = field "entities" (object (field "mara" (object mara) empty)) empty }

abbrev ledger : KnowledgeLedger
ledger = record { run_id = "run"; initial_time = 10; records = [] }

abbrev pipeline : ObservationPipeline
pipeline = record { max_content_bytes = 65536; contributors = [] }

abbrev game : SimulationApplication ℕ
game = record {
  kernel = world;
  knowledge = ledger;
  knowledge_projector = none;
  perception_extension = none;
  social = false;
  include_last_receipt = false;
  pipeline = pipeline;
  observations = new_history "run";
  traces = [];
  busy = false;
  requests = [];
}

abbrev seen : SimulationApplication ℕ
seen = (observe sha256 canonical_bytes "mara" game).1

abbrev asked : ActionRequest
asked = record request {
  based_on_observation_id = "run:observation:00000001";
  submitted_at = 10;
  payload = field "duration" (integer (pos 2)) empty;
}

game_made : make_application world ledger pipeline none none false false ≡ ok game
unfolding make_application Knowledge.history detached_records check_owners clone_json_object
    is_canonical_object canonical_object
game_made = refl

reachable-once_example : engine_count "request" (submit sha256 "mara" asked seen).1.traces ≤ 1
reachable-once_example =
    reachable-once sha256 canonical_bytes (submit sha256 "mara" asked seen).1 "request" (
      submitted "mara" asked
        (observed "mara" (started world ledger pipeline none none false false game_made)))

submit-IsEngineCall_example :
    ((submit sha256 "mara" asked seen).1.kernel ≡ seen.kernel)
    ⊎ IsEngineCall sha256 "mara" asked seen (submit sha256 "mara" asked seen).1
submit-IsEngineCall_example = submit-IsEngineCall sha256 "mara" asked seen

abbrev context : PerceptionContext
context = record {
  run_id = "run";
  actor_id = "mara";
  simulation_time = 10;
  perceived = empty;
  known = empty;
}

generate-IsHistory_example :
    IsHistory (generate sha256 canonical_bytes context pipeline (new_history "run")).1
generate-IsHistory_example =
    generate-IsHistory sha256 canonical_bytes context pipeline (new_history "run")
      (record { numbered = tt; found = tt })

abbrev fingerprint : JsonObject
fingerprint = canonical_object (request_json asked)

-- Another actor's request, which is denied before the engine.
abbrev denied : ControllerActionResult
denied = record {
  action_request_id = "request";
  run_id = "run";
  actor_id = "tobin";
  status = rejected;
  reason_code = some "WRONG_ACTOR";
  started_at = 10;
  resolved_at = 10;
  schema_version = pos 1;
}

denied_made : (submit sha256 "tobin" asked game).0 ≡ ok denied
unfolding submit submit_inner enter ◌>>=◌ is_running normalize_request request_fingerprint detached
    request_json clone_json_object is_canonical_object canonical_object lookup insert attempt
    first_attempt settled execute preflight after_preflight authority_reason receipt
denied_made = refl

still_open :
    (submit sha256 "tobin" asked game).1.busy
      || not (is_running (submit sha256 "tobin" asked game).1.kernel.run.status)
    ≡ false
unfolding submit submit_inner enter ◌>>=◌ is_running normalize_request request_fingerprint detached
    request_json clone_json_object is_canonical_object canonical_object lookup insert attempt
    first_attempt settled execute preflight after_preflight authority_reason receipt
still_open = refl

submit-again_example :
    ((submit sha256 "tobin" asked (submit sha256 "tobin" asked game).1).0 ≡ ok denied)
    × ((submit sha256 "tobin" asked (submit sha256 "tobin" asked game).1).1.kernel
        ≡ (submit sha256 "tobin" asked game).1.kernel)
submit-again_example = submit-again sha256 "tobin" asked game denied denied_made still_open

abbrev observation : Observation
observation = record {
  observation_id = "run:observation:00000001";
  run_id = "run";
  actor_id = "mara";
  observation_sequence = 1;
  simulation_time = 10;
  schema_version = pos 1;
  content_digest = "digest";
  content = field "sections" (array nil) empty;
}

abbrev port : GamePort ℕ
port = record { observe = λ n. (ok observation, n); submit = λ r n. (ok denied, n + 1) }

abbrev turn : ControllerTurnResult
turn = record {
  observation = some observation;
  request = some asked;
  receipt = some denied;
  failure_code = none;
}

turn_made : (run_controller_turn port (λ o. ok asked) 0).0 ≡ ok turn
unfolding run_controller_turn validate_observation_v1 normalize_request request_fingerprint detached
    request_json clone_json_object is_canonical_object canonical_object validate_action_contract
    has_exactly get? keys validate_wait_payload
turn_made = refl

run_controller_turn-IsTurn_example :
    IsRefused 0 (run_controller_turn port (λ o. ok asked) 0).1 turn
    ⊎ IsSubmitted port 0 (run_controller_turn port (λ o. ok asked) 0).1 turn
run_controller_turn-IsTurn_example =
    run_controller_turn-IsTurn port (λ o. ok asked) 0 turn turn_made

abbrev waited : ControllerActionResult
waited = record denied {
  actor_id = "mara";
  status = succeeded;
  reason_code = none;
  resolved_at = 12;
}

abbrev begun : EventTraceArchive
begun = record {
  traces = [];
  context = some (record {
    current = observation;
    decision_opportunity_id = "run:mara:opportunity:00000001";
    opportunity_sequence = 1;
    attempt = 1;
    prior = [];
  });
  closed = false;
}

begun_made : (begin observation new_archive).1 ≡ begun
unfolding begin next_context validate_observation_v1 is_backward make_event_context check_traces
    has_exactly get? keys format_08d
begun_made = refl

closed_once : length (close observation asked waited true begun).1.traces ≡ 1
unfolding close checked_request is_bound retried close_new active_context normalize_request
    request_fingerprint detached request_json clone_json_object is_canonical_object canonical_object
    validate_action_contract has_exactly get? keys validate_wait_payload same_object
closed_once = refl

close-IsArchive_example : IsArchive 1 (close observation asked waited true begun).1.traces
close-IsArchive_example = close-IsArchive observation asked waited true begun tt
