-- ===== src/Tests/Society.antt =====
-- The theorems on knowledge and social action at a small log.
use journey_map.Prelude.{
  ℕ, suc, String, ◌≡◌, ◌≢◌, refl, false, none, some, List, [], ◌∷◌, ◌==◌, arith, any, keep, length,
  All, text_ltb,
}
use journey_map.Prelude.Int.{pos}
use journey_map.Prelude.Exec.{ok}
use journey_map.Json.{
  JsonObject, empty, field, object, text, get?, get, as_text, insert, erase, every, insert_sorted,
  clone_json_object, clone_json_value, is_canonical, is_canonical_object, canonical,
  canonical_object, same_value,
}
use journey_map.Core.Ids.{scoped_id}
use journey_map.Core.Run.{SimulationRun, TransitionIdentity, action}
use journey_map.Core.Entities.{get_entity, find_entity, read_entity, make_entity}
use journey_map.Core.Actions.{validate_actor}
use journey_map.Core.Events
use journey_map.Core.Events.{EventDraft, EventEnvelope, make_draft}
use journey_map.Core.Handlers.{ActionRequest, ResolutionContext, TransitionPlan, make_plan}
use journey_map.Core.Kernel.State.{SimulationKernel}
use journey_map.Core.Kernel.Commit.{make_envelope}
use journey_map.Core.Kernel.Invariant.{IsConsistent}
use journey_map.Modules.Movement.{perceive_position, seen_position, seen_location}
use journey_map.Modules.Knowledge
use journey_map.Modules.Knowledge.{
  KnowledgeRecord, KnowledgeLedger, ActorKnowledgeView, make_record, detached_records, walk,
  check_scope, check_supersession, check_previous, check_chain, next_id, insert_learned,
  sort_learned, make_ledger, make_view, for_actor, view_history,
}
use journey_map.Modules.Knowledge.Chains.{walk-ends}
use journey_map.Modules.Knowledge.Ledgers.{IsLedger, make_ledger-IsLedger}
use journey_map.Modules.Knowledge.Views.{Of, ids, for_actor-private}
use journey_map.Modules.Knowledge.Projection.{
  KnowledgeEventRule, detached_events, check_log, check_sources, acquire, extend, apply_rules,
  accumulate, project, is_foreign,
}
use journey_map.Modules.Knowledge.Projection.Provenance.{HasProvenance, project-HasProvenance}
use journey_map.Modules.Knowledge.Projection.Complete.{check_log-IsConsistent}
use journey_map.Modules.Social.{validate_payload, validate_social_event, item, action_of}
use journey_map.Modules.Social.Handlers.{
  locate, interaction_location, interaction_payload, resolve_social,
}
use journey_map.Modules.Social.Accepted.{resolve_social-accepted}
use journey_map.Modules.Social.Perception.{perceive_social}
use journey_map.Modules.Social.Privacy.{perceive_social-others}
use journey_map.Modules.Social.Informed.{informed_record, project_informed_knowledge}
use journey_map.Modules.Social.Learned.{IsLearned, project_informed_knowledge-IsLearned}
use journey_map.Tests.Fixtures.{kernel, request, run}
use journey_map.Tests.Kernel.{kernel-IsConsistent}

-- What mara knew of the road at 3, and what she knows since 5.
abbrev first_known : KnowledgeRecord
first_known = record {
  knowledge_record_id = "k1";
  run_id = "run";
  actor_id = "mara";
  subject_ref = "road";
  predicate = "open";
  value = text "yes";
  source_kind = "SCENARIO";
  source_ref = "fixture";
  learned_at = 3;
  supersedes_id = none;
  schema_version = pos 1;
}

abbrev corrected : KnowledgeRecord
corrected = record first_known {
  knowledge_record_id = "k2";
  value = text "no";
  learned_at = 5;
  supersedes_id = some "k1";
}

abbrev ledger : KnowledgeLedger
ledger = record { run_id = "run"; initial_time = 10; records = first_known ∷ corrected ∷ [] }

ledger_made : make_ledger "run" 10 (corrected ∷ first_known ∷ []) ≡ ok ledger
unfolding make_ledger detached_records make_record clone_json_value is_canonical canonical
    check_scope check_supersession check_previous check_chain walk next_id sort_learned
    insert_learned text_ltb
ledger_made = refl

make_ledger-IsLedger_example : IsLedger ledger
make_ledger-IsLedger_example =
    make_ledger-IsLedger "run" 10 (corrected ∷ first_known ∷ []) ledger ledger_made

for_actor-private_example :
    (view : ActorKnowledgeView) × (for_actor "mara" ledger ≡ ok view)
    × (ids view.records ≡ ids (keep (λ r. r.actor_id == "mara") ledger.records))
    × All (Of ledger.run_id "mara") view.records
for_actor-private_example = for_actor-private ledger "mara" make_ledger-IsLedger-here
  where
    make_ledger-IsLedger-here : IsLedger ledger
    make_ledger-IsLedger-here =
        make_ledger-IsLedger "run" 10 (corrected ∷ first_known ∷ []) ledger ledger_made

-- Two records that supersede each other.
abbrev cyclic : List KnowledgeRecord
cyclic = corrected ∷ record first_known { supersedes_id = some "k2" } ∷ []

walk-ends_example : walk (suc (length cyclic)) cyclic ("k2" ∷ []) (some "k1") ≢ none
walk-ends_example = walk-ends cyclic corrected

-- mara tells tobin what she knows.
abbrev informed : EventEnvelope
informed = record {
  event_id = "run:event:00000001";
  run_id = "run";
  event_sequence = 1;
  simulation_time = 10;
  event_type = "ActorInformed";
  schema_version = pos 1;
  source_kind = action;
  source_ref = "request";
  transition_id = "run:transition:00000001";
  causation_id = "request";
  correlation_id = "request";
  payload = field "claim_record_id" (text "k2") (
      field "location_id" (text "inn")
        (field "sender_actor_id" (text "mara") (field "target_actor_id" (text "tobin") empty)));
}

abbrev told : KnowledgeRecord
told = record corrected {
  knowledge_record_id = "run:event:00000001:social-informed-v1:00000001";
  actor_id = "tobin";
  source_kind = "INFORMED";
  source_ref = "run:event:00000001";
  learned_at = 10;
  supersedes_id = none;
}

told_given : project_informed_knowledge informed [] ledger ≡ ok (told ∷ [])
unfolding project_informed_knowledge informed_record validate_social_event validate_payload item
    get? erase every for_actor make_view view_history detached_records make_record clone_json_value
    is_canonical canonical action_of
told_given = refl

project_informed_knowledge-IsLearned_example :
    All (IsLearned ledger informed) (told ∷ []) × (any (is_foreign informed) (told ∷ []) ≡ false)
project_informed_knowledge-IsLearned_example =
    project_informed_knowledge-IsLearned informed [] ledger (told ∷ [])
      (make_ledger-IsLedger "run" 10 (corrected ∷ first_known ∷ []) ledger ledger_made) told_given

-- mara tells zoe the same later.
abbrev retold : EventEnvelope
retold = record informed {
  event_id = "run:event:00000002";
  event_sequence = 2;
  payload = insert "target_actor_id" (text "zoe") informed.payload;
}

not_sender : ¬ (as_text (get "sender_actor_id" informed.payload) ≡ some "zoe")
unfolding get?
not_sender h = cc

not_target : ¬ (as_text (get "target_actor_id" informed.payload) ≡ some "zoe")
unfolding get?
not_target h = cc

perceive_social-others_example :
    perceive_social (informed ∷ retold ∷ []) "zoe" ≡ perceive_social (retold ∷ []) "zoe"
perceive_social-others_example =
    perceive_social-others [] informed (retold ∷ []) "zoe" not_sender not_target

abbrev rules : List KnowledgeEventRule
rules = project_informed_knowledge ∷ []

abbrev snapshot : KnowledgeLedger
snapshot = record ledger { records = first_known ∷ corrected ∷ told ∷ [] }

snapshot_made : project ledger (informed ∷ []) none rules ≡ ok snapshot
unfolding project detached_events Events.detached clone_json_object is_canonical_object
    canonical_object check_log check_sources acquire extend accumulate apply_rules Knowledge.history
    make_ledger detached_records make_record clone_json_value is_canonical canonical check_scope
    check_supersession check_previous check_chain walk next_id sort_learned insert_learned text_ltb
    insert_sorted project_informed_knowledge informed_record validate_social_event validate_payload
    item get? erase every for_actor make_view view_history action_of
snapshot_made = refl

project-HasProvenance_example :
    (committed : List EventEnvelope) × (detached_events (informed ∷ []) ≡ ok committed)
    × IsLedger snapshot
    × All (HasProvenance ledger committed) snapshot.records
project-HasProvenance_example =
    project-HasProvenance ledger (informed ∷ []) none rules snapshot snapshot_made

-- A kernel that has committed the event, under the identity of its sequence.
abbrev first_event : EventEnvelope
first_event = record informed { event_id = scoped_id "run" ":event:" 1 }

abbrev after_told : SimulationKernel ℕ
after_told = record kernel { run = record run { event_sequence = 1 }; events = first_event ∷ [] }

after_told-IsConsistent : IsConsistent after_told
after_told-IsConsistent = record {
  log = (refl, refl, refl, omega arith, tt);
  counted = refl;
  past = (omega arith, tt);
  started = omega arith;
  future = kernel-IsConsistent.future;
  queue = kernel-IsConsistent.queue;
  word = kernel-IsConsistent.word;
  systems_draw = kernel-IsConsistent.systems_draw;
  actions_draw = kernel-IsConsistent.actions_draw;
}

told_copied : detached_events (first_event ∷ []) ≡ ok (first_event ∷ [])
unfolding detached_events Events.detached clone_json_object is_canonical_object canonical_object
    insert_sorted text_ltb
told_copied = refl

check_log-IsConsistent_example : check_log "run" 1 10 [] (first_event ∷ []) ≡ ok tt
check_log-IsConsistent_example =
    check_log-IsConsistent after_told 10 (first_event ∷ []) after_told-IsConsistent (omega arith)
      told_copied

abbrev actor : String → JsonObject
actor id = field "entity_id" (text id) (field "entity_type" (text "actor") empty)

abbrev at_inn : String → JsonObject
at_inn id = field "actor_id" (text id) (field "location_id" (text "inn") empty)

abbrev two_actors : (String → JsonObject) → JsonObject
two_actors f = field "mara" (object (f "mara")) (field "tobin" (object (f "tobin")) empty)

abbrev inn : JsonObject
inn = field "entities" (object (two_actors actor)) (
    field "movement"
      (object (
        field "locations"
          (object (field "inn" (object (field "location_id" (text "inn") empty)) empty))
          (field "positions" (object (two_actors at_inn)) empty)))
      empty)

abbrev tells : ActionRequest
tells = record request {
  submitted_at = 10;
  action_type = "INFORM";
  payload = field "claim_record_id" (text "k2") (field "target_actor_id" (text "tobin") empty);
}

abbrev resolution : ResolutionContext
resolution = record {
  run_id = "run";
  simulation_time = 10;
  state = inn;
  rng = record { state = 7; draw_count = 0 };
}

abbrev told_draft : EventDraft
told_draft = record {
  event_type = "ActorInformed";
  schema_version = pos 1;
  payload = informed.payload;
}

abbrev told_plan : TransitionPlan
told_plan = record { set_values = empty; delete_keys = []; events = told_draft ∷ [] }

tells_resolved : resolve_social tells resolution ≡ ok (told_plan, resolution.rng)
unfolding resolve_social interaction_location interaction_payload locate item validate_payload
    validate_actor get_entity find_entity read_entity make_entity perceive_position seen_position
    seen_location make_draft make_plan get? every insert insert_sorted text_ltb clone_json_object
    is_canonical_object canonical_object same_value
tells_resolved = refl

resolve_social-accepted_example :
    (draft : EventDraft) × (told_plan.events ≡ draft ∷ [])
    × ((identity : String × ℕ) (transition : TransitionIdentity) (run : SimulationRun)
          (event : EventEnvelope)
        → transition.source_kind ≡ action
        → Events.detached (make_envelope draft identity transition run) ≡ ok event
        → validate_social_event event ≡ ok tt)
resolve_social-accepted_example =
    resolve_social-accepted tells resolution told_plan resolution.rng tells_resolved
