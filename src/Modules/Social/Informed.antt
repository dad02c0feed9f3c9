-- ===== src/Modules/Social/Informed.antt =====
-- modules/social/knowledge.py: what a target learns from an INFORM.
use journey_map.Prelude.{
  String, true, false, not, ◌||◌, Option, none, some, List, [], ◌∷◌, ◌==◌, ltb, first,
}
use journey_map.Prelude.Int.{pos}
use journey_map.Prelude.Exec.{
  Result, ok, value_error, assertion_error, ◌>>=◌, ◌>>◌, raise_if, or_raise,
}
use journey_map.Json.{get, as_text, is_text}
use journey_map.Core.Ids.{◌<>◌}
use journey_map.Core.Events.{EventEnvelope}
use journey_map.Modules.Knowledge.{
  KnowledgeRecord, KnowledgeLedger, make_record, for_actor, view_history,
}
use journey_map.Modules.Social.{validate_social_event, validate_reply, item}

abbrev pub check_reply :
    List EventEnvelope → Option String → String → String → KnowledgeRecord → Result (Unit {0})
check_reply previous none sender target claim = ok tt
check_reply previous (some reply) sender target claim =
    validate_reply previous reply sender target claim.subject_ref claim.predicate

-- The record that an INFORM gives; a validated one has a `claim_record_id`.
unfoldable pub informed_record :
    EventEnvelope → List EventEnvelope → KnowledgeLedger → Result KnowledgeRecord
unfolding item
informed_record event previous knowledge = do
  validate_social_event event
  sender_value ← item "sender_actor_id" event.payload
  target_value ← item "target_actor_id" event.payload
  sender ← or_raise (as_text sender_value) assertion_error
  target ← or_raise (as_text target_value) assertion_error
  view ← for_actor sender knowledge
  known ← view_history view
  claim ←
      or_raise
        (first (λ r. is_text (get "claim_record_id" event.payload) r.knowledge_record_id) known)
        value_error
  raise_if (not (claim.run_id == event.run_id) || ltb event.simulation_time claim.learned_at)
      value_error
  check_reply previous (as_text (get "reply_to_event_id" event.payload)) sender target claim
  make_record (record {
    knowledge_record_id = event.event_id <> ":social-informed-v1:00000001";
    run_id = event.run_id;
    actor_id = target;
    subject_ref = claim.subject_ref;
    predicate = claim.predicate;
    value = claim.value;
    source_kind = "INFORMED";
    source_ref = event.event_id;
    learned_at = event.simulation_time;
    supersedes_id = none;
    schema_version = pos 1;
  })

unfoldable pub project_informed_knowledge :
    EventEnvelope → List EventEnvelope → KnowledgeLedger → Result (List KnowledgeRecord)
unfolding informed_record
project_informed_knowledge event previous knowledge = elim (event.event_type == "ActorInformed") [
  | false ↦ ok []
  | true ↦ informed_record event previous knowledge >>= λ r. ok (r ∷ [])
]
