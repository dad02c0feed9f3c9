-- ===== src/Core/Replay.antt =====
-- core/replay.py: a fresh kernel, a recorded schedule, the recorded actions, and a final advance.
pub mod Laws
use journey_map.Prelude.{
  ℕ, String, Bool, true, false, not, ◌&&◌, List, [], ◌∷◌, ◌==◌, if◌then◌else◌,
}
use journey_map.Prelude.Exec.{Result, ok, err, value_error, raise_if, ◌>>=◌ as ◌>>=ᵣ◌}
use journey_map.Prelude.State.{Exec, pure, gets, reads, ◌>>=◌, ◌>>◌}
use journey_map.Prelude.Int.{ℤ, pos, is_negative, pos_part}
use journey_map.Json.{JsonObject, clone_json_object, state_digest}
use journey_map.Core.Scheduler.{ScenarioSchedule, ScheduledEventSpec}
use journey_map.Core.Events.{EventEnvelope}
use journey_map.Core.Handlers.{ActionRequest, ActionResult, SystemEventOutcome}
use journey_map.Core.Kernel.State.{SimulationKernel, boot, close, schedule}
use journey_map.Core.Kernel.Advance.{advance_to}
use journey_map.Core.Kernel.Submit.{submit_action}

pub record ReplayInput : Type 0 where
  pub schedule : ScenarioSchedule
  pub actions : List ActionRequest
  pub advance_to : ℕ

-- `ReplayInput(...)` with its `__post_init__`.
pub make_replay_input : ScenarioSchedule → List ActionRequest → ℤ → Result ReplayInput
make_replay_input schedule actions target =
    if is_negative target
    then err value_error
    else ok (record { schedule = schedule; actions = actions; advance_to = pos_part target })

pub record ReplayReport : Type 0 where
  pub action_results : List ActionResult
  pub system_event_outcomes : List SystemEventOutcome
  pub events : List EventEnvelope
  pub final_state : JsonObject
  pub final_state_digest : String
  pub final_simulation_time : ℕ
  pub rng_draw_count : ℕ

module _ {W : Type 0} where
  unfoldable pub schedule_all : List ScheduledEventSpec → Exec (SimulationKernel W) (Unit {0})
  schedule_all [] = pure tt
  schedule_all (spec ∷ specs) = schedule spec >> schedule_all specs

module _ {W : Type 0} (sha256 : JsonObject → String) where
  unfoldable pub submit_all : List ActionRequest → Exec (SimulationKernel W) (Unit {0})
  submit_all [] = pure tt
  submit_all (request ∷ requests) = submit_action sha256 request >> submit_all requests

  -- `kernel.events` gives copies of the events, whose payloads are in canonical form since the commit.
  unfoldable pub make_report : SimulationKernel W → Result ReplayReport
  make_report k = clone_json_object k.state >>=ᵣ λ snapshot.
      state_digest sha256 k.state >>=ᵣ λ digest. ok (record {
        action_results = k.action_results;
        system_event_outcomes = k.system_event_outcomes;
        events = k.events;
        final_state = snapshot;
        final_state_digest = digest;
        final_simulation_time = k.run.now;
        rng_draw_count = k.run.rng.draw_count;
      })

  -- The `try` block.
  unfoldable pub replay_inputs : ReplayInput → Exec (SimulationKernel W) ReplayReport
  replay_inputs input = do
    schedule_all input.schedule.events
    submit_all input.actions
    advance_to sha256 (pos input.advance_to)
    reads make_report

  -- `finally: kernel.close()`; what the close raises takes the place of what was raised before.
  closed : Result ReplayReport × SimulationKernel W → Result ReplayReport × SimulationKernel W
  closed (r, k) = let (c, k') = close k in (elim c [ err e ↦ err e | ok _ ↦ r ], k')

  abbrev matches : ReplayInput → SimulationKernel W → Bool
  matches input k =
      k.run.manifest.scenario_id == input.schedule.scenario_id
      && k.run.manifest.scenario_version == input.schedule.scenario_version

  -- `ReplayHarness.run`, on the kernel that the factory made.
  unfoldable pub run : ReplayInput → Exec (SimulationKernel W) ReplayReport
  unfolding closed
  run input k =
      (reads (λ l. raise_if (not (matches input l)) value_error) >> boot >> λ l.
      closed (replay_inputs input l))
        k
