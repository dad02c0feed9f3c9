-- ===== src/Core/Kernel/Commit.antt =====
-- core/kernel.py, `_commit_plan`: everything that can be refused is prepared first, and then the
-- sequences, the state, the generator and the event log are written.
use journey_map.Prelude.{ℕ, ◌+◌, String, List, [], ◌∷◌, ◌++◌, length}
use journey_map.Prelude.Exec.{Result, ok, err, key_error, ◌>>=◌, or_raise}
use journey_map.Prelude.State.{Exec}
use journey_map.Json.{
  JsonObject, get?, insert, erase, keys, clone_json_object, clone_json_value, state_digest,
}
use journey_map.Core.Rng.{DeterministicRng, restore}
use journey_map.Core.Run.{
  SimulationRun, TransitionIdentity, EventSourceKind, pending_transition, pending_event_identity,
  commit_sequences,
}
use journey_map.Core.Events
use journey_map.Core.Events.{EventDraft, EventEnvelope}
use journey_map.Core.Handlers.{TransitionPlan}
use journey_map.Core.Modules.{sort_texts}
use journey_map.Core.Kernel.State.{SimulationKernel}

-- `for key in keys: state.pop(key, None)`
unfoldable pub delete_all : List String → JsonObject → JsonObject
delete_all [] state = state
delete_all (k ∷ ks) state = delete_all ks (erase k state)

-- `for key in keys: state[key] = clone_json_value(values[key])`
unfoldable pub assign_all : List String → JsonObject → JsonObject → Result JsonObject
assign_all [] values state = ok state
assign_all (k ∷ ks) values state = do
  v ← or_raise (get? k values) key_error
  cloned ← clone_json_value v
  assign_all ks values (insert k cloned state)

unfoldable pub candidate_state : TransitionPlan → JsonObject → Result JsonObject
unfolding delete_all assign_all
candidate_state plan state = do
  cloned ← clone_json_object state
  assign_all (sort_texts (keys plan.set_values)) plan.set_values
      (delete_all (sort_texts plan.delete_keys) cloned)

unfoldable pub make_envelope :
    EventDraft → String × ℕ → TransitionIdentity → SimulationRun → EventEnvelope
make_envelope draft (event_id, event_sequence) transition run = record {
  event_id = event_id;
  run_id = run.manifest.run_id;
  event_sequence = event_sequence;
  simulation_time = run.now;
  event_type = draft.event_type;
  schema_version = draft.schema_version;
  source_kind = transition.source_kind;
  source_ref = transition.source_ref;
  transition_id = transition.transition_id;
  causation_id = transition.transition_id;
  correlation_id = transition.correlation_id;
  payload = draft.payload;
}

-- The loop over `enumerate(plan.events, start=offset)`.
unfoldable pub envelopes :
    ℕ → List EventDraft → TransitionIdentity → SimulationRun → Result (List EventEnvelope)
envelopes offset [] transition run = ok []
envelopes offset (draft ∷ drafts) transition run = do
  identity ← pending_event_identity offset run
  event ← Events.detached (make_envelope draft identity transition run)
  rest ← envelopes (offset + 1) drafts transition run
  ok (event ∷ rest)

-- What a commit is made of.
pub record Source : Type 0 where
  pub source_kind : EventSourceKind
  pub source_ref : String
  pub causation_id : String
  pub correlation_id : String

pub record Prepared : Type 0 where
  pub transition : TransitionIdentity
  pub digest_after : String
  pub emitted_events : List EventEnvelope
  pub candidate : JsonObject

module _ {W : Type 0} where
  -- `rng.restore` and `events.extend`, after the sequences and the state are written.
  unfoldable pub finish_commit :
      Result DeterministicRng → Prepared → Exec (SimulationKernel W) Prepared
  finish_commit (err e) p k = (err e, k)
  finish_commit (ok rng) p k =
      (ok p, record k { run = record k.run { rng = rng }; events = k.events ++ p.emitted_events })

  unfoldable pub write :
      Result SimulationRun → DeterministicRng → Prepared → Exec (SimulationKernel W) Prepared
  unfolding finish_commit
  write (err e) rng_after p k = (err e, k)
  write (ok run) rng_after p k =
      finish_commit (restore rng_after run.rng) p (record k { run = run; state = p.candidate })

  unfoldable pub install : Result Prepared → DeterministicRng → Exec (SimulationKernel W) Prepared
  unfolding write
  install (err e) rng_after k = (err e, k)
  install (ok p) rng_after k =
      write (commit_sequences (length p.emitted_events) k.run) rng_after p k

module _ {W : Type 0} (sha256 : JsonObject → String) where
  unfoldable pub prepare : TransitionPlan → Source → SimulationKernel W → Result Prepared
  prepare plan source k = do
    candidate ← candidate_state plan k.state
    digest_after ← state_digest sha256 candidate
    transition ←
        pending_transition source.source_kind source.source_ref source.causation_id
          source.correlation_id k.run
    emitted_events ← envelopes 1 plan.events transition k.run
    ok (record {
      transition = transition;
      digest_after = digest_after;
      emitted_events = emitted_events;
      candidate = candidate;
    })

  unfoldable pub commit_plan :
      TransitionPlan → Source → DeterministicRng → Exec (SimulationKernel W) Prepared
  unfolding prepare install
  commit_plan plan source rng_after k = install (prepare plan source k) rng_after k
