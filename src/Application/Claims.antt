-- ===== src/Application/Claims.antt =====
-- application/social.py: the authority of an INFORM's claim.
use journey_map.Prelude.{
  String, Bool, false, not, ◌||◌, Option, none, some, List, ◌==◌, ltb, first, if◌then◌else◌,
}
use journey_map.Prelude.Exec.{
  Result, ok, validation, assertion_error, ◌>>=◌, ◌>>◌, raise_if, or_raise,
}
use journey_map.Json.{
  JsonValue, JsonArray, nil, cons, object, null, get, as_object, as_text, is_text, same_value,
  clone_json_value,
}
use journey_map.Core.Events.{EventEnvelope}
use journey_map.Core.Handlers.{ActionRequest}
use journey_map.Core.Observations.{Observation, as_array}
use journey_map.Modules.Knowledge
use journey_map.Modules.Knowledge.{KnowledgeRecord, ActorKnowledgeView, view_history}
use journey_map.Modules.Social.{validate_reply, item}

abbrev pub items : Option JsonArray → JsonArray
items none = nil
items (some xs) = xs

abbrev pub append_array : JsonArray → JsonArray → JsonArray
append_array nil ys = ys
append_array (cons v xs) ys = cons v (append_array xs ys)

-- `d.get(key) if isinstance(d, dict) else None`
abbrev pub member : String → JsonValue → JsonValue
member key value = elim (as_object value) [ none ↦ null | some o ↦ get key o ]

-- The items that a `read` of the contents of a module's sections gives.
unfoldable pub visible : String → (JsonValue → JsonValue) → JsonArray → JsonArray
visible module_id read nil = nil
visible module_id read (cons section sections) =
    let rest = visible module_id read sections in
    if is_text (member "module_id" section) module_id
    then append_array (items (as_array (read (member "content" section)))) rest
    else rest

-- `canonical_json(claim) in [canonical_json(record) for record in records]`
unfoldable pub is_visible : JsonValue → JsonArray → Result Bool
is_visible claim nil = ok false
is_visible claim (cons record_ records) = do
  copy ← clone_json_value record_
  rest ← is_visible claim records
  ok (same_value claim copy || rest)

unfoldable pub has_event : String → JsonArray → Bool
has_event id nil = false
has_event id (cons item_ items_) = is_text (member "event_id" item_) id || has_event id items_

abbrev pub content_sections : Observation → JsonArray
content_sections observation = items (as_array (get "sections" observation.content))

unfoldable pub check_claim_reply :
    Option String
    → ActionRequest
    → Observation
    → KnowledgeRecord
    → List EventEnvelope
    → Result (Unit {0})
unfolding visible has_event
check_claim_reply none request observation claim events = ok tt
check_claim_reply (some reply) request observation claim events = do
  value ← item "target_actor_id" request.payload
  target ← or_raise (as_text value) assertion_error
  raise_if
      (not (
        has_event reply (
          visible "social" (λ content. member "interactions" (member "social" content))
            (content_sections observation))))
      (validation "INVALID_REPLY_REFERENCE")
  validate_reply events reply request.actor_id target claim.subject_ref claim.predicate

-- A request that reaches this check has a `claim_record_id`.
unfoldable pub validate_claim :
    ActionRequest → Observation → ActorKnowledgeView → List EventEnvelope → Result (Unit {0})
unfolding visible is_visible check_claim_reply
validate_claim request observation owned events = do
  known ← view_history owned
  claim ←
      or_raise
        (first (λ r. is_text (get "claim_record_id" request.payload) r.knowledge_record_id) known)
        (validation "INVALID_CLAIM_REFERENCE")
  raise_if
      (not (claim.run_id == request.run_id)
        || not (claim.actor_id == request.actor_id)
        || ltb request.submitted_at claim.learned_at
        || ltb observation.simulation_time claim.learned_at)
      (validation "INVALID_CLAIM_REFERENCE")
  shown ← Knowledge.to_json claim
  claimed ← clone_json_value (object shown)
  found ← is_visible claimed (visible "knowledge" (member "records") (content_sections observation))
  raise_if (not found) (validation "INVALID_CLAIM_REFERENCE")
  check_claim_reply (as_text (get "reply_to_event_id" request.payload)) request observation claim
      events
