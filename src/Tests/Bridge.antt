-- ===== src/Tests/Bridge.antt =====
-- The theorem on the knowledge of the bridge, at a collapse that mara sees and a move of hers after it.
use journey_map.Prelude.{◌≡◌, refl, none, [], ◌∷◌, All}
use journey_map.Prelude.Int.{pos}
use journey_map.Prelude.Exec.{ok}
use journey_map.Json.{
  nil, cons, array, empty, field, text, get?, is_canonical, canonical, clone_json_value,
}
use journey_map.Core.Run.{action, scheduled_event}
use journey_map.Core.Events.{EventEnvelope}
use journey_map.Core.Ids.{format_08d}
use journey_map.Modules.Knowledge.{KnowledgeRecord, make_record}
use journey_map.Scenarios.Acquired.{
  project_bridge_knowledge, fold_events, shown_to, learn, collapse_witnesses, mover, actor_names,
  actor_name,
}
use journey_map.Scenarios.Acquired.Once.{IsOnce, IsDirect, project_bridge_knowledge-IsOnce}

abbrev collapsed : EventEnvelope
collapsed = record {
  event_id = "run:event:00000001";
  run_id = "run";
  event_sequence = 1;
  simulation_time = 10;
  event_type = "BridgeCollapsed";
  schema_version = pos 1;
  source_kind = scheduled_event;
  source_ref = "storm";
  transition_id = "run:transition:00000001";
  causation_id = "storm";
  correlation_id = "storm";
  payload = field "bridge_id" (text "east-bridge") (
      field "condition" (text "collapsed")
        (field "witness_actor_ids" (array (cons (text "mara") nil)) empty));
}

abbrev walked : EventEnvelope
walked = record collapsed {
  event_id = "run:event:00000002";
  event_sequence = 2;
  simulation_time = 12;
  event_type = "ActorMoved";
  source_kind = action;
  payload = field "actor_id" (text "mara") (field "destination" (text "east-road") empty);
}

abbrev seen : KnowledgeRecord
seen = record {
  knowledge_record_id = "run:event:00000001:alderwick-direct-v1:00000001";
  run_id = "run";
  actor_id = "mara";
  subject_ref = "east-bridge";
  predicate = "condition";
  value = text "collapsed";
  source_kind = "DIRECT_OBSERVATION";
  source_ref = "run:event:00000001";
  learned_at = 10;
  supersedes_id = none;
  schema_version = pos 1;
}

seen_once : project_bridge_knowledge (collapsed ∷ walked ∷ []) ≡ ok (seen ∷ [])
unfolding project_bridge_knowledge fold_events shown_to learn collapse_witnesses mover actor_names
    actor_name make_record clone_json_value is_canonical canonical get? format_08d
seen_once = refl

project_bridge_knowledge-IsOnce_example :
    IsOnce [] (seen ∷ []) × All (IsDirect (collapsed ∷ walked ∷ [])) (seen ∷ [])
project_bridge_knowledge-IsOnce_example =
    project_bridge_knowledge-IsOnce (collapsed ∷ walked ∷ []) (seen ∷ []) seen_once
