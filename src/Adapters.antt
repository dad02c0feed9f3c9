-- ===== src/Adapters.antt =====
-- adapters/memory.py: the memory of past observations that a decision is given.
pub mod EventMemory
use journey_map.Prelude.{ℕ, String, Bool, not, ◌||◌, List, [], ◌∷◌, ◌==◌, ltb}
use journey_map.Prelude.Exec.{Result, ok, value_error, ◌>>=◌, ◌>>◌, raise_if}
use journey_map.Core.Observations.{Observation, validate_observation_v1}

pub record MemoryContext : Type 0 where
  pub current : Observation
  pub prior : List Observation

-- The loop over the prior observations, from the last sequence and time.
unfoldable pub check_prior : Observation → ℕ → ℕ → List Observation → Result (Unit {0})
check_prior current previous_sequence previous_tick [] = ok tt
check_prior current previous_sequence previous_tick (r ∷ rs) = do
  validate_observation_v1 r
  raise_if
      (not (r.run_id == current.run_id)
        || not (r.actor_id == current.actor_id)
        || not (ltb previous_sequence r.observation_sequence)
        || not (ltb r.observation_sequence current.observation_sequence)
        || ltb r.simulation_time previous_tick
        || ltb current.simulation_time r.simulation_time)
      value_error
  check_prior current r.observation_sequence r.simulation_time rs

-- `MemoryContext(...)` with its `__post_init__`.
unfoldable pub make_memory_context : Observation → List Observation → Result MemoryContext
unfolding check_prior
make_memory_context current prior = do
  validate_observation_v1 current
  check_prior current 0 0 prior
  ok (record { current = current; prior = prior })

-- `NoMemory.select`
unfoldable pub no_memory : MemoryContext → List Observation
no_memory context = []
