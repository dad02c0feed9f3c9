-- ===== src/Application/Perception.antt =====
-- application/perception.py: what of the world and of its knowledge an actor is shown.
use journey_map.Prelude.{ℕ, String, not, Option, none, some, List, [], ◌∷◌, ◌==◌, ltb, any, keep}
use journey_map.Prelude.Exec.{Result, ok, value_error, ◌>>=◌, ◌>>◌, raise_if, or_raise}
use journey_map.Json.{
  JsonObject, JsonArray, nil, cons, array, object, empty, field, has, insert, keys,
  clone_json_object,
}
use journey_map.Core.Entities
use journey_map.Core.Entities.{Entity, get_entity}
use journey_map.Core.Observations.{PerceptionContext, make_context}
use journey_map.Modules.Knowledge
use journey_map.Modules.Knowledge.{KnowledgeRecord, KnowledgeLedger, for_actor, view_history}
use journey_map.Modules.Movement.{perceive_position}

-- `PerceptionExtension`
abbrev pub PerceptionExtension : Type 0
PerceptionExtension = JsonObject → String → Result JsonObject

unfoldable pub records_json : List KnowledgeRecord → Result JsonArray
records_json [] = ok nil
records_json (r ∷ rs) = do
  shown ← Knowledge.to_json r
  rest ← records_json rs
  ok (cons (object shown) rest)

-- `d.update(extra)`
unfoldable pub update : JsonObject → JsonObject → JsonObject
update o empty = o
update o (field k v extra) = update (insert k v o) extra

unfoldable pub extend_perceived :
    Option PerceptionExtension → JsonObject → String → JsonObject → Result JsonObject
unfolding update
extend_perceived none world actor_id perceived = ok perceived
extend_perceived (some extension) world actor_id perceived = do
  copy ← clone_json_object world
  output ← extension copy actor_id
  extra ← clone_json_object output
  raise_if (any (λ k. has k extra) (keys perceived)) value_error
  ok (update perceived extra)

-- `KnowledgeReader` is given by the ledger that it reads.
unfoldable pub perceive :
    String
    → String
    → ℕ
    → JsonObject
    → KnowledgeLedger
    → Option PerceptionExtension
    → Result PerceptionContext
unfolding records_json extend_perceived
perceive run_id actor_id simulation_time world knowledge extension = do
  raise_if (not (knowledge.run_id == run_id)) value_error
  found ← get_entity world actor_id
  entity ← or_raise found value_error
  view ← for_actor actor_id knowledge
  known ← view_history view
  records ← records_json (keep (λ r. not (ltb simulation_time r.learned_at)) known)
  position ← perceive_position world actor_id
  perceived ←
      extend_perceived extension world actor_id
        (field "self" (object (Entities.to_json entity)) (field "movement" (object position) empty))
  make_context run_id actor_id simulation_time perceived (field "records" (array records) empty)
