-- ===== src/Tests/Fixtures.antt =====
-- A small run for the tests: a ticking system event and a timed action, of which both are due.
use journey_map.Prelude.{ℕ, String, false, none, some, [], ◌∷◌}
use journey_map.Prelude.Int.{pos}
use journey_map.Prelude.Exec.{Result, ok}
use journey_map.Json.{JsonObject, empty, field, integer}
use journey_map.Core.Rng.{DeterministicRng, next_u64}
use journey_map.Core.Run.{RunManifest, SimulationRun, running, created}
use journey_map.Core.Scheduler.{ScheduledEventSpec, ScheduledEvent, DeterministicScheduler}
use journey_map.Core.Events.{EventDraft}
use journey_map.Core.Handlers.{
  ActionRequest, ActionHandler, SystemEventHandler, TransitionPlan, ResolutionContext,
}
use journey_map.Core.Handlers.Registry.{Registry}
use journey_map.Core.Kernel.State.{SimulationKernel, Persistence}

abbrev pub sha256 : JsonObject → String
sha256 _ = "digest"

abbrev pub manifest : RunManifest
manifest = record {
  run_id = "run";
  scenario_id = "alderwick";
  scenario_version = "1";
  engine_version = "1";
  schema_version = pos 1;
  seed = pos 7;
  start_time = pos 10;
  initial_state_digest = "digest";
}

abbrev pub ticked : EventDraft
ticked = record { event_type = "TICKED"; schema_version = pos 1; payload = empty }

abbrev pub tick_plan : TransitionPlan
tick_plan = record {
  set_values = field "ticks" (integer (pos 1)) empty;
  delete_keys = [];
  events = ticked ∷ [];
}

abbrev pub tick_resolve :
    {Input : Type 0} → Input → ResolutionContext → Result (TransitionPlan × DeterministicRng)
tick_resolve input context = ok (tick_plan, (next_u64 context.rng).1)

abbrev pub tick : SystemEventHandler
tick = record { handler_id = "tick"; validate = λ _ _. ok tt; resolve = tick_resolve }

abbrev pub wait : ActionHandler
wait = record {
  handler_id = "wait";
  validate = λ _ _. ok tt;
  timed = some (record {
    prepare = λ _ _. ok (record { duration = 5; timing_data = empty });
    validate_completion = λ _ _ _. ok tt;
  });
  resolve = tick_resolve;
}

abbrev pub persistence : Persistence ℕ
persistence = record { initialize = λ w. (ok tt, w); close = λ w. (ok tt, w) }

abbrev pub actions : Registry ActionHandler
actions = (("WAIT", pos 1), wait) ∷ []

abbrev pub systems : Registry SystemEventHandler
systems = (("TICK", pos 1), tick) ∷ []

abbrev pub run : SimulationRun
run = record {
  manifest = manifest;
  now = 10;
  rng = record { state = 7; draw_count = 0 };
  status = running;
  transition_sequence = 0;
  event_sequence = 0;
}

abbrev pub tick_spec : ScheduledEventSpec
tick_spec = record {
  due_time = 12;
  priority = pos 0;
  event_type = "TICK";
  schema_version = pos 1;
  payload = empty;
  correlation_id = none;
}

abbrev pub scheduled : ScheduledEvent
scheduled = record {
  scheduled_event_id = "run:scheduled-event:00000000";
  run_id = "run";
  due_time = 12;
  priority = pos 0;
  insertion_sequence = 0;
  event_type = "TICK";
  schema_version = pos 1;
  payload = empty;
  correlation_id = "run:scheduled-event:00000000";
}

abbrev pub scheduler : DeterministicScheduler
scheduler = record { run_id = "run"; next_insertion_sequence = 1; items = scheduled ∷ [] }

-- Booted, with one tick due at 12, at the start time 10.
abbrev pub kernel : SimulationKernel ℕ
kernel = record {
  modules = [];
  persistence = persistence;
  run = run;
  state = empty;
  action_registry = actions;
  system_event_registry = systems;
  event_bus = [];
  scheduler = scheduler;
  events = [];
  action_results = [];
  system_event_outcomes = [];
  transition_active = false;
  outside = 0;
}

-- Before it is booted.
abbrev pub fresh : SimulationKernel ℕ
fresh = record kernel {
  run = record run { status = created };
  scheduler = record { run_id = "run"; next_insertion_sequence = 0; items = [] };
}

abbrev pub request : ActionRequest
request = record {
  action_request_id = "request";
  run_id = "run";
  actor_id = "mara";
  based_on_observation_id = "observation";
  submitted_at = 11;
  action_type = "WAIT";
  schema_version = pos 1;
  payload = empty;
  correlation_id = none;
}
