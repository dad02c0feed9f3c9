-- ===== src/Core/Kernel/State.antt =====
-- core/kernel.py: what a `SimulationKernel` holds, its construction, its guards and its contexts.
use journey_map.Prelude.{ℕ, String, Bool, true, false, not, List, [], ◌==◌}
use journey_map.Prelude.Exec.{
  Result, ok, err, runtime_error, reentrant_mutation, initial_state_mismatch, value_error, ◌>>=◌,
  ◌>>◌, raise_if,
}
use journey_map.Prelude.State.{Exec}
use journey_map.Prelude.Int.{pos, ltb_ℤ}
use journey_map.Json.{JsonObject, clone_json_object, state_digest}
use journey_map.Core.Rng.{DeterministicRng}
use journey_map.Core.Run
use journey_map.Core.Run.{RunManifest, SimulationRun, make_run, is_running, is_created}
use journey_map.Core.Scheduler
use journey_map.Core.Scheduler.{
  DeterministicScheduler, ScheduledEventSpec, ScheduledEvent, make_scheduler,
}
use journey_map.Core.Events.{EventEnvelope, Subscription}
use journey_map.Core.Handlers.{
  ActionHandler, SystemEventHandler, ActionResult, SystemEventOutcome, ValidationContext,
  ResolutionContext,
}
use journey_map.Core.Handlers.Registry.{Registry}
use journey_map.Core.Modules.{ModuleRegistry, validate_dependencies}

-- `Persistence` is a port: its two methods act on the world outside of the kernel, and may raise.
pub record Persistence (W : Type 0) : Type 0 where
  pub initialize : W → Result (Unit {0}) × W
  pub close : W → Result (Unit {0}) × W

-- `outside` is the world that subscribers and persistence act on.
pub record SimulationKernel (W : Type 0) : Type 0 where
  pub modules : ModuleRegistry
  pub persistence : Persistence W
  pub run : SimulationRun
  pub state : JsonObject
  pub action_registry : Registry ActionHandler
  pub system_event_registry : Registry SystemEventHandler
  pub event_bus : List (Subscription W)
  pub scheduler : DeterministicScheduler
  pub events : List EventEnvelope
  pub action_results : List ActionResult
  pub system_event_outcomes : List SystemEventOutcome
  pub transition_active : Bool
  pub outside : W

module _ {W : Type 0} where
  abbrev pub set_active : Bool → SimulationKernel W → SimulationKernel W
  set_active active k = record k { transition_active = active }

  abbrev pub set_now : ℕ → SimulationKernel W → SimulationKernel W
  set_now now k = record k { run = record k.run { now = now } }

  unfoldable pub ensure_running : SimulationKernel W → Result (Unit {0})
  unfolding is_running
  ensure_running k = raise_if (not (is_running k.run.status)) runtime_error

  unfoldable pub ensure_not_transitioning : SimulationKernel W → Result (Unit {0})
  ensure_not_transitioning k = raise_if k.transition_active reentrant_mutation

  -- The guards of the public operations, in their order.
  unfoldable pub ensure_available : SimulationKernel W → Result (Unit {0})
  unfolding ensure_running ensure_not_transitioning
  ensure_available k = do ensure_running k; ensure_not_transitioning k

  unfoldable pub validation_context : SimulationKernel W → Result ValidationContext
  validation_context k = do
    snapshot ← clone_json_object k.state
    ok (record { run_id = k.run.manifest.run_id; simulation_time = k.run.now; state = snapshot })

  unfoldable pub resolution_context :
      DeterministicRng → SimulationKernel W → Result ResolutionContext
  resolution_context rng k = do
    snapshot ← clone_json_object k.state
    ok (record {
      run_id = k.run.manifest.run_id;
      simulation_time = k.run.now;
      state = snapshot;
      rng = rng;
    })

  -- `SimulationKernel.__init__`
  unfoldable pub make_kernel :
      (JsonObject → String)
      → ModuleRegistry
      → Persistence W
      → RunManifest
      → JsonObject
      → Registry ActionHandler
      → Registry SystemEventHandler
      → List (Subscription W)
      → W
      → Result (SimulationKernel W)
  make_kernel sha256 modules persistence manifest initial_state actions system_events bus outside =
      do
        run ← make_run manifest
        state ← clone_json_object initial_state
        digest ← state_digest sha256 state
        raise_if (not (digest == manifest.initial_state_digest)) initial_state_mismatch
        ok (record {
          modules = modules;
          persistence = persistence;
          run = run;
          state = state;
          action_registry = actions;
          system_event_registry = system_events;
          event_bus = bus;
          scheduler = make_scheduler manifest.run_id;
          events = [];
          action_results = [];
          system_event_outcomes = [];
          transition_active = false;
          outside = outside;
        })

  unfoldable pub started : Result SimulationRun → W → Exec (SimulationKernel W) (Unit {0})
  started (err e) w k = (err e, record k { outside = w })
  started (ok run) w k = (ok tt, record k { run = run; outside = w })

  unfoldable pub initialized : Result (Unit {0}) × W → Exec (SimulationKernel W) (Unit {0})
  unfolding started
  initialized (err e, w) k = (err e, record k { outside = w })
  initialized (ok _, w) k = started (Run.start k.run) w k

  unfoldable pub booted : Result (List String) → Exec (SimulationKernel W) (Unit {0})
  unfolding initialized
  booted (err e) k = (err e, k)
  booted (ok order) k = initialized (k.persistence.initialize k.outside) k

  -- The status, the dependency graph, the persistence and the run, in this order.
  unfoldable pub boot : Exec (SimulationKernel W) (Unit {0})
  unfolding booted is_created
  boot k =
      booted
        (raise_if (not (is_created k.run.status)) runtime_error >> validate_dependencies k.modules)
        k

  unfoldable pub released : Result (Unit {0}) × W → Exec (SimulationKernel W) (Unit {0})
  released (err e, w) k = (err e, record k { outside = w })
  released (ok _, w) k = (ok tt, record k { run = Run.close k.run; outside = w })

  unfoldable pub closing : Result (Unit {0}) → Bool → Exec (SimulationKernel W) (Unit {0})
  unfolding released
  closing (err e) running k = (err e, k)
  closing (ok _) false k = (ok tt, k)
  closing (ok _) true k = released (k.persistence.close k.outside) k

  unfoldable pub close : Exec (SimulationKernel W) (Unit {0})
  unfolding closing ensure_not_transitioning is_running
  close k = closing (ensure_not_transitioning k) (is_running k.run.status) k

  checked_schedule :
      Result (Unit {0}) → ScheduledEventSpec → Exec (SimulationKernel W) ScheduledEvent
  checked_schedule (err e) spec k = (err e, k)
  checked_schedule (ok _) spec k =
      let (r, scheduler) = Scheduler.schedule spec k.scheduler in
      (r, record k { scheduler = scheduler })

  unfoldable pub schedule : ScheduledEventSpec → Exec (SimulationKernel W) ScheduledEvent
  unfolding checked_schedule
  schedule spec k =
      checked_schedule
        (ensure_available k >> raise_if (ltb_ℤ (pos spec.due_time) (pos k.run.now)) value_error)
        spec k
