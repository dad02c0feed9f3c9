-- ===== src/Modules/Knowledge/Projection.antt =====
-- modules/knowledge/projection.py: what actors know, rebuilt from the complete log of events.
pub mod Provenance
pub mod Complete
use journey_map.Prelude.{
  ℕ, ◌+◌, String, Bool, true, false, not, ◌||◌, Option, none, some, List, [], ◌∷◌, ◌++◌, ◌==◌,
  ◌==ℕ◌, ltb, any, keep, first,
}
use journey_map.Prelude.Exec.{Result, ok, err, value_error, ◌>>=◌, ◌>>◌, raise_if, or_raise}
use journey_map.Core.Events
use journey_map.Core.Events.{EventEnvelope}
use journey_map.Modules.Knowledge.{KnowledgeRecord, KnowledgeLedger, make_ledger, history}

abbrev pub KnowledgeProjector : Type 0
KnowledgeProjector = List EventEnvelope → Result (List KnowledgeRecord)

abbrev pub KnowledgeEventRule : Type 0
KnowledgeEventRule =
    EventEnvelope → List EventEnvelope → KnowledgeLedger → Result (List KnowledgeRecord)

-- `tuple(event.detached() for event in events)`
unfoldable pub detached_events : List EventEnvelope → Result (List EventEnvelope)
detached_events [] = ok []
detached_events (e ∷ es) = do copy ← Events.detached e; rest ← detached_events es; ok (copy ∷ rest)

abbrev pub has_event_id : String → EventEnvelope → Bool
has_event_id id event = event.event_id == id

-- The loop over the committed events, with those that it has seen.
unfoldable pub check_log :
    String → ℕ → ℕ → List EventEnvelope → List EventEnvelope → Result (Unit {0})
check_log run_id sequence tick seen [] = ok tt
check_log run_id sequence tick seen (e ∷ es) = do
  raise_if
      (not (e.run_id == run_id)
        || not (e.event_sequence ==ℕ sequence)
        || any (has_event_id e.event_id) seen
        || ltb e.simulation_time tick)
      value_error
  check_log run_id (sequence + 1) e.simulation_time (e ∷ seen) es

abbrev pub is_source_of : EventEnvelope → KnowledgeRecord → Bool
is_source_of event r = r.source_ref == event.event_id

-- The loop over the records that the projector gave.
unfoldable pub check_sources : List EventEnvelope → List KnowledgeRecord → Result (Unit {0})
check_sources committed [] = ok tt
check_sources committed (r ∷ rs) = do
  source ← or_raise (first (has_event_id r.source_ref) committed) value_error
  raise_if (not (r.learned_at ==ℕ source.simulation_time)) value_error
  check_sources committed rs

unfoldable pub acquire :
    Option KnowledgeProjector → List EventEnvelope → Result (List KnowledgeRecord)
unfolding detached_events
acquire none committed = ok []
acquire (some projector) committed = detached_events committed >>= projector

abbrev pub is_foreign : EventEnvelope → KnowledgeRecord → Bool
is_foreign event r = not (is_source_of event r) || not (r.learned_at ==ℕ event.simulation_time)

-- `KnowledgeLedger(run_id, time, (*snapshot.history(), *added))`
unfoldable pub extend : String → ℕ → KnowledgeLedger → List KnowledgeRecord → Result KnowledgeLedger
unfolding history make_ledger
extend run_id time snapshot added = do
  known ← history snapshot
  make_ledger run_id time (known ++ added)

-- The loop over the event rules, at one event.
unfoldable pub apply_rules :
    String
    → EventEnvelope
    → List EventEnvelope
    → List KnowledgeEventRule
    → KnowledgeLedger
    → Result KnowledgeLedger
unfolding extend detached_events
apply_rules run_id event previous [] snapshot = ok snapshot
apply_rules run_id event previous (rule ∷ rules) snapshot = do
  evidence ← Events.detached event
  earlier ← detached_events previous
  shown ← extend run_id event.simulation_time snapshot []
  added ← rule evidence earlier shown
  raise_if (any (is_foreign event) added) value_error
  next ← extend run_id event.simulation_time snapshot added
  apply_rules run_id event previous rules next

-- The loop over the committed events; `previous` is `committed[:index]`.
unfoldable pub accumulate :
    String
    → List KnowledgeEventRule
    → List KnowledgeRecord
    → List EventEnvelope
    → List EventEnvelope
    → KnowledgeLedger
    → Result KnowledgeLedger
unfolding extend apply_rules
accumulate run_id rules acquired previous [] snapshot = ok snapshot
accumulate run_id rules acquired previous (event ∷ events) snapshot = do
  direct ← extend run_id event.simulation_time snapshot (keep (is_source_of event) acquired)
  next ← apply_rules run_id event previous rules direct
  accumulate run_id rules acquired (previous ++ event ∷ []) events next

-- `KnowledgeProjection(...)`, whose value is its snapshot.
unfoldable pub project :
    KnowledgeLedger
    → List EventEnvelope
    → Option KnowledgeProjector
    → List KnowledgeEventRule
    → Result KnowledgeLedger
unfolding detached_events check_log check_sources acquire extend accumulate
project initial events projector rules = do
  committed ← detached_events events
  check_log initial.run_id 1 initial.initial_time [] committed
  acquired ← acquire projector committed
  check_sources committed acquired
  snapshot ← extend initial.run_id initial.initial_time initial []
  accumulate initial.run_id rules acquired [] committed snapshot
