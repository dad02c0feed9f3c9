-- ===== src/Core/Run.antt =====
-- core/run.py: run identity, the logical clock and the lifecycle of a run.
use journey_map.Prelude.{
  ℕ, ◌+◌, String, Bool, true, false, not, ◌||◌, ◌≡◌, arith, is_empty, if◌then◌else◌, ◌==ℕ◌,
}
use journey_map.Prelude.Int.{ℤ, pos, pos_part, ltb_ℤ, is_negative, is_nonpositive}
use journey_map.Prelude.Exec.{
  Result, ok, value_error, runtime_error, clock_error, ◌>>=◌, ◌>>◌, raise_if, >>=-eq-ok,
}
use journey_map.Core.Ids.{scoped_id}
use journey_map.Core.Rng.{DeterministicRng, make_rng, IsWord, make_rng-IsWord}

-- `SimulationClock` is its `_now`.
unfoldable pub start_clock : ℤ → Result ℕ
start_clock start_time = do raise_if (is_negative start_time) clock_error; ok (pos_part start_time)

unfoldable pub advance_clock : ℤ → ℕ → Result ℕ
advance_clock target now = do raise_if (ltb_ℤ target (pos now)) clock_error; ok (pos_part target)

unfoldable pub advance_clock_by : ℤ → ℕ → Result ℕ
advance_clock_by ticks now = do raise_if (is_negative ticks) clock_error; ok (now + pos_part ticks)

pub data RunStatus : Type 0 where
  created running closed : RunStatus

unfoldable pub is_running : RunStatus → Bool
is_running running = true
is_running _ = false

unfoldable pub is_created : RunStatus → Bool
is_created created = true
is_created _ = false

pub record RunManifest : Type 0 where
  pub run_id : String
  pub scenario_id : String
  pub scenario_version : String
  pub engine_version : String
  pub schema_version : ℤ
  pub seed : ℤ
  pub start_time : ℤ
  pub initial_state_digest : String

-- `RunManifest.__post_init__`
unfoldable pub validate_manifest : RunManifest → Result RunManifest
validate_manifest m = do
  raise_if
      (is_empty m.run_id
        || is_empty m.scenario_id
        || is_empty m.scenario_version
        || is_empty m.engine_version
        || is_empty m.initial_state_digest)
      value_error
  raise_if (is_nonpositive m.schema_version) value_error
  raise_if (is_negative m.start_time) value_error
  ok m

pub data EventSourceKind : Type 0 where
  action scheduled_event : EventSourceKind

pub record TransitionIdentity : Type 0 where
  pub transition_id : String
  pub run_id : String
  pub sequence : ℕ
  pub simulation_time : ℕ
  pub source_kind : EventSourceKind
  pub source_ref : String
  pub causation_id : String
  pub correlation_id : String

pub record SimulationRun : Type 0 where
  pub manifest : RunManifest
  pub now : ℕ
  pub rng : DeterministicRng
  pub status : RunStatus
  pub transition_sequence : ℕ
  pub event_sequence : ℕ

unfoldable pub make_run : RunManifest → Result SimulationRun
unfolding start_clock
make_run manifest = do
  now ← start_clock manifest.start_time
  ok (record {
    manifest = manifest;
    now = now;
    rng = make_rng manifest.seed;
    status = created;
    transition_sequence = 0;
    event_sequence = 0;
  })

unfoldable pub start : SimulationRun → Result SimulationRun
unfolding is_created
start run = do
  raise_if (not (is_created run.status)) runtime_error
  ok (record run { status = running })

unfoldable pub close : SimulationRun → SimulationRun
unfolding is_running
close run = if is_running run.status then record run { status = closed } else run

-- The next identity, which is not consumed.
unfoldable pub pending_transition :
    EventSourceKind → String → String → String → SimulationRun → Result TransitionIdentity
unfolding is_running
pending_transition source_kind source_ref causation_id correlation_id run = do
  raise_if (not (is_running run.status)) runtime_error
  let sequence = run.transition_sequence + 1
  ok (record {
    transition_id = scoped_id run.manifest.run_id ":transition:" sequence;
    run_id = run.manifest.run_id;
    sequence = sequence;
    simulation_time = run.now;
    source_kind = source_kind;
    source_ref = source_ref;
    causation_id = causation_id;
    correlation_id = correlation_id;
  })

unfoldable pub pending_event_identity : ℕ → SimulationRun → Result (String × ℕ)
unfolding is_running
pending_event_identity offset run = do
  raise_if (not (is_running run.status)) runtime_error
  raise_if (offset ==ℕ 0) value_error
  let sequence = run.event_sequence + offset
  ok (scoped_id run.manifest.run_id ":event:" sequence, sequence)

unfoldable pub commit_sequences : ℕ → SimulationRun → Result SimulationRun
unfolding is_running
commit_sequences event_count run = do
  raise_if (not (is_running run.status)) runtime_error
  ok (record run {
    transition_sequence = run.transition_sequence + 1;
    event_sequence = run.event_sequence + event_count;
  })

-- A new run is created, at its manifest's start, with both sequences at zero.
pub make_run-fields :
    (m : RunManifest) (run : SimulationRun)
    → make_run m ≡ ok run
    → (run.manifest ≡ m)
      × (run.now ≡ pos_part m.start_time)
      × (run.event_sequence ≡ 0)
      × (run.transition_sequence ≡ 0)
      × IsWord run.rng
unfolding make_run
make_run-fields m run h =
    let (now, started, h₁) = >>=-eq-ok (start_clock m.start_time) _ h in
    let now_lem : now ≡ pos_part m.start_time = unfold start_clock in ground arith in
    let word = make_rng-IsWord m.seed in
    (ground arith, ground arith, ground arith, ground arith, ground arith)
