-- ===== src/Core/Entities.antt =====
-- core/entities.py: the identity of the run's entities.
use journey_map.Prelude.{String, ◌||◌, Option, none, some, List, [], ◌∷◌, is_empty, not}
use journey_map.Prelude.Exec.{Result, ok, value_error, ◌>>=◌, ◌>>◌, raise_if, or_raise}
use journey_map.Json.{
  JsonObject, JsonValue, empty, field, text, object, get?, get, has, insert, as_object, as_text,
  is_text,
}

pub record Entity : Type 0 where
  pub entity_id : String
  pub entity_type : String

-- `Entity(...)` with its `__post_init__`.
unfoldable pub make_entity : String → String → Result Entity
make_entity entity_id entity_type = do
  raise_if (is_empty entity_id || is_empty entity_type) value_error
  ok (record { entity_id = entity_id; entity_type = entity_type })

unfoldable pub to_json : Entity → JsonObject
to_json e = field "entity_id" (text e.entity_id) (field "entity_type" (text e.entity_type) empty)

-- The loop of `entity_state`, from the result so far.
unfoldable pub add_entities : List Entity → JsonObject → Result JsonObject
unfolding to_json
add_entities [] result = ok result
add_entities (e ∷ es) result = do
  raise_if (has e.entity_id result) value_error
  add_entities es (insert e.entity_id (object (to_json e)) result)

unfoldable pub entity_state : List Entity → Result JsonObject
unfolding add_entities
entity_state entities = add_entities entities empty

-- The record of an entity that is in the table.
unfoldable pub read_entity : String → JsonValue → Result (Option Entity)
unfolding make_entity
read_entity entity_id value = do
  record_ ← or_raise (as_object value) value_error
  raise_if (not (is_text (get "entity_id" record_) entity_id)) value_error
  entity_type ← or_raise (as_text (get "entity_type" record_)) value_error
  entity ← make_entity entity_id entity_type
  ok (some entity)

unfoldable pub find_entity : String → Option JsonObject → Result (Option Entity)
unfolding read_entity
find_entity entity_id none = ok none
find_entity entity_id (some entities) = elim (get? entity_id entities) [
  | none ↦ ok none
  | some value ↦ read_entity entity_id value
]

unfoldable pub get_entity : JsonObject → String → Result (Option Entity)
unfolding find_entity
get_entity state entity_id = find_entity entity_id (as_object (get "entities" state))
