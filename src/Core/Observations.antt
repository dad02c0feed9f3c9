-- ===== src/Core/Observations.antt =====
-- core/observations.py: what a controller is shown, detached from the world.
use journey_map.Prelude.{
  ℕ, String, Bool, not, ◌||◌, ◌&&◌, Option, none, some, List, [], ◌∷◌, is_empty, ◌==◌, ◌==ℕ◌, any,
}
use journey_map.Prelude.Int.{ℤ, pos, eqb_ℤ, is_nonpositive}
use journey_map.Prelude.Exec.{Result, ok, value_error, ◌>>=◌, ◌>>◌, raise_if, or_raise}
use journey_map.Json.{
  JsonObject, JsonValue, JsonArray, nil, cons, array, clone_json_object, get, has_exactly,
  as_object, as_text, state_digest,
}
use journey_map.Core.Ids.{scoped_id}

-- `_scope`; a time has no negative value here.
unfoldable pub scope : String → String → Result (Unit {0})
scope run_id actor_id = raise_if (is_empty run_id || is_empty actor_id) value_error

pub record PerceptionContext : Type 0 where
  pub run_id : String
  pub actor_id : String
  pub simulation_time : ℕ
  pub perceived : JsonObject
  pub known : JsonObject

-- `PerceptionContext(...)` with its `__post_init__`.
unfoldable pub make_context :
    String → String → ℕ → JsonObject → JsonObject → Result PerceptionContext
unfolding scope
make_context run_id actor_id simulation_time perceived known = do
  scope run_id actor_id
  perceived_copy ← clone_json_object perceived
  known_copy ← clone_json_object known
  ok (record {
    run_id = run_id;
    actor_id = actor_id;
    simulation_time = simulation_time;
    perceived = perceived_copy;
    known = known_copy;
  })

unfoldable pub detached : PerceptionContext → Result PerceptionContext
unfolding make_context
detached context =
    make_context context.run_id context.actor_id context.simulation_time context.perceived
      context.known

-- The content is the value that `_content_json` is the canonical text of.
pub record Observation : Type 0 where
  pub observation_id : String
  pub run_id : String
  pub actor_id : String
  pub observation_sequence : ℕ
  pub simulation_time : ℕ
  pub schema_version : ℤ
  pub content_digest : String
  pub content : JsonObject

module _ (sha256 : JsonObject → String) where
  unfoldable pub make_observation : String → String → ℕ → ℕ → JsonObject → ℤ → Result Observation
  unfolding scope
  make_observation run_id actor_id sequence simulation_time content schema_version = do
    scope run_id actor_id
    raise_if (sequence ==ℕ 0 || is_nonpositive schema_version) value_error
    detached_content ← clone_json_object content
    digest ← state_digest sha256 detached_content
    ok (record {
      observation_id = scoped_id run_id ":observation:" sequence;
      run_id = run_id;
      actor_id = actor_id;
      observation_sequence = sequence;
      simulation_time = simulation_time;
      schema_version = schema_version;
      content_digest = digest;
      content = detached_content;
    })

abbrev pub same_section : String × String → String × String → Bool
same_section (m, c) (m', c') = m == m' && c == c'

-- One round of the loop over the sections: the section's identity.
unfoldable pub section_identity : JsonValue → Result (String × String)
section_identity value = do
  section ← or_raise (as_object value) value_error
  raise_if (not (has_exactly ("module_id" ∷ "contributor_id" ∷ "content" ∷ []) section)) value_error
  module_id ← or_raise (as_text (get "module_id" section)) value_error
  contributor_id ← or_raise (as_text (get "contributor_id" section)) value_error
  raise_if (is_empty module_id || is_empty contributor_id) value_error
  or_raise (as_object (get "content" section)) value_error
  ok (module_id, contributor_id)

unfoldable pub validate_sections : List (String × String) → JsonArray → Result (Unit {0})
unfolding section_identity
validate_sections identities nil = ok tt
validate_sections identities (cons value sections) = do
  identity ← section_identity value
  raise_if (any (same_section identity) identities) value_error
  validate_sections (identity ∷ identities) sections

abbrev pub as_array : JsonValue → Option JsonArray
as_array (array xs) = some xs
as_array _ = none

unfoldable pub validate_observation_v1 : Observation → Result (Unit {0})
unfolding validate_sections
validate_observation_v1 observation = do
  raise_if (not (eqb_ℤ observation.schema_version (pos 1))) value_error
  raise_if (not (has_exactly ("sections" ∷ []) observation.content)) value_error
  sections ← or_raise (as_array (get "sections" observation.content)) value_error
  validate_sections [] sections
