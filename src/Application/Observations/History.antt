-- ===== src/Application/Observations/History.antt =====
-- application/observations.py: the append-only history of a run's observations.
use journey_map.Prelude.{
  ℕ, ◌+◌, String, Bool, true, false, not, Option, List, [], ◌∷◌, ◌++◌, ◌==◌, length,
}
use journey_map.Prelude.Int.{pos}
use journey_map.Prelude.Exec.{Result, ok, value_error, runtime_error, raise_if, ◌>>=◌ as ◌>>=ᵣ◌}
use journey_map.Prelude.State.{Exec, reads, modify, finally_do, ◌>>=◌, ◌>>◌}
use journey_map.Prelude.Dict.{Dict, lookup, insert}
use journey_map.Json.{JsonObject}
use journey_map.Core.Observations.{PerceptionContext, Observation, make_observation}
use journey_map.Application.Observations.{ObservationPipeline, assemble}

-- The records are in `_records`; `_by_id` holds them by identity.
pub record ObservationHistory : Type 0 where
  pub run_id : String
  pub records : List Observation
  pub by_id : Dict Observation
  pub building : Bool

abbrev pub new_history : String → ObservationHistory
new_history run_id = record { run_id = run_id; records = []; by_id = []; building = false }

unfoldable pub find : String → ObservationHistory → Option Observation
find observation_id history = lookup observation_id history.by_id

abbrev pub set_building : Bool → ObservationHistory → ObservationHistory
set_building building history = record history { building = building }

unfoldable pub store : Observation → Exec ObservationHistory Observation
store r history = (
  ok r,
  record history {
    records = history.records ++ r ∷ [];
    by_id = insert r.observation_id r history.by_id;
  },
)

module _ (sha256 : JsonObject → String) (canonical_bytes : JsonObject → ℕ) where
  -- `Observation(...)`, of the content that the pipeline assembles.
  unfoldable pub build :
      PerceptionContext → ObservationPipeline → ObservationHistory → Result Observation
  build context pipeline history = assemble canonical_bytes context pipeline >>=ᵣ λ content.
      make_observation sha256 context.run_id context.actor_id (length history.records + 1)
        context.simulation_time content (pos 1)

  unfoldable pub generate :
      PerceptionContext → ObservationPipeline → Exec ObservationHistory Observation
  unfolding build store
  generate context pipeline = do
    reads (λ history. raise_if (not (context.run_id == history.run_id)) value_error)
    reads (λ history. raise_if history.building runtime_error)
    modify (set_building true)
    finally_do (reads (build context pipeline) >>= store) (set_building false)
