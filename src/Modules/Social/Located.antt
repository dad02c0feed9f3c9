-- ===== src/Modules/Social/Located.antt =====
-- The actors and the places of an interaction have identities.
use journey_map.Prelude.{
  String, ◌≡◌, sym, ap, ◌∙◌, inl, inr, false, not, ◌||◌, Option, none, some, is_empty, arith,
  Bool-cases, Option-cases, some_injective,
}
use journey_map.Prelude.Exec.{
  Result, ok, err, Error, validation, value_error, raise_if, or_raise, rethrow_value_error,
  is_value_error, >>=-eq-ok, or_raise-eq-ok, ok-injective,
}
use journey_map.Json.{
  JsonObject, JsonValue, text, empty, field, get?, get, as_object, as_text, is_text,
}
use journey_map.Core.Entities.{Entity, make_entity, read_entity, find_entity, get_entity}
use journey_map.Core.Handlers.{ActionRequest, ValidationContext}
use journey_map.Core.Actions.{validate_actor}
use journey_map.Modules.Movement.{perceive_position, seen_position, seen_location}
use journey_map.Modules.Social.{item}
use journey_map.Modules.Social.Handlers.{locate, is_missing}

pub rethrow-eq-ok {ℓ} :
    {A : Type ℓ} (e : Error) (r : Result A) (a : A) → rethrow_value_error e r ≡ ok a → r ≡ ok a
rethrow-eq-ok e (ok b) a h = h
rethrow-eq-ok e (err x) a h = elim (Bool-cases (is_value_error x)) [
  | inl caught ↦ (let clash = rw caught at h in cc)
  | inr other ↦ (let clash = rw other at h in cc)
]

-- An entity that is found has an identity.
read_entity-full :
    (id : String) (value : JsonValue) (found : Option Entity)
    → read_entity id value ≡ ok found
    → is_empty id ≡ false
unfolding read_entity make_entity
read_entity-full id value found h =
    let (row, _, h₁) = >>=-eq-ok (or_raise (as_object value) value_error) _ h in
    let (_, _, h₂) =
      >>=-eq-ok (raise_if (not (is_text (get "entity_id" row) id)) value_error) _ h₁ in
    let (kind, _, h₃) = >>=-eq-ok (or_raise (as_text (get "entity_type" row)) value_error) _ h₂ in
    let (entity, made, _) = >>=-eq-ok (make_entity id kind) _ h₃ in
    let (_, full, _) = >>=-eq-ok (raise_if (is_empty id || is_empty kind) value_error) _ made in
    ground (arith, full)

find_entity-full :
    (id : String) (entities : Option JsonObject) (e : Entity)
    → find_entity id entities ≡ ok (some e)
    → is_empty id ≡ false
unfolding find_entity
find_entity-full id none e h = cc
find_entity-full id (some entities) e h = elim (Option-cases (get? id entities)) [
  | inl missing ↦ (let clash = rw (missing, find_entity) at h in cc)
  | inr (value, found) ↦ read_entity-full id value (some e) (rw (found, find_entity) at h)
]

pub validate_actor-full :
    (request : ActionRequest) (context : ValidationContext) (u : Unit {0})
    → validate_actor request context ≡ ok u
    → is_empty request.actor_id ≡ false
unfolding validate_actor get_entity
validate_actor-full request context u h =
    let (entity, got, h₁) =
      >>=-eq-ok
        (rethrow_value_error (validation "INVALID_ENTITY")
          (get_entity context.state request.actor_id))
        _ h in
    let (e, there, _) = >>=-eq-ok (or_raise entity (validation "UNKNOWN_ACTOR")) _ h₁ in
    let present = or_raise-eq-ok entity _ e there in
    find_entity-full request.actor_id (as_object (get "entities" context.state)) e
      (rethrow-eq-ok _ _ entity got ∙ ap ok present)

-- The location in a position that is perceived has an identity.
abbrev IsPlace : JsonObject → Type 0
IsPlace position =
    (v : JsonValue) (l : String)
    → get? "location_id" position ≡ some v
    → as_text v ≡ some l
    → is_empty l ≡ false

empty-IsPlace : IsPlace empty
unfolding get?
empty-IsPlace v l h k = cc

seen_location-IsPlace :
    (movement : JsonObject) (value : JsonValue) (actor_id : String) (position : JsonObject)
    → seen_location movement actor_id value ≡ ok position
    → IsPlace position
unfolding seen_location get?
seen_location-IsPlace movement value actor_id position h v l at_key is_l =
    let (row, _, h₁) = >>=-eq-ok (or_raise (as_object value) value_error) _ h in
    let (_, _, h₂) =
      >>=-eq-ok (raise_if (not (is_text (get "actor_id" row) actor_id)) value_error) _ h₁ in
    let (id, _, h₃) = >>=-eq-ok (or_raise (as_text (get "location_id" row)) value_error) _ h₂ in
    let (_, full, h₄) = >>=-eq-ok (raise_if (is_empty id) value_error) _ h₃ in
    let (locations, _, h₅) =
      >>=-eq-ok (or_raise (as_object (get "locations" movement)) value_error) _ h₄ in
    let (location, _, h₆) = >>=-eq-ok (or_raise (as_object (get id locations)) value_error) _ h₅ in
    let (_, _, h₇) =
      >>=-eq-ok (raise_if (not (is_text (get "location_id" location) id)) value_error) _ h₆ in
    let shown : get? "location_id" (field "location_id" (text id) empty) ≡ some v =
      ap (get? "location_id") (ok-injective h₇) ∙ at_key in
    let same : text id ≡ v = some_injective shown in
    let named : id ≡ l = some_injective (ap as_text same ∙ is_l) in
    let full_id : is_empty id ≡ false = ground (arith, full) in ap is_empty (sym named) ∙ full_id

seen_position-IsPlace :
    (movement : JsonObject) (positions : Option JsonObject) (actor_id : String)
    (position : JsonObject)
    → seen_position movement actor_id positions ≡ ok position
    → IsPlace position
unfolding seen_position
seen_position-IsPlace movement none actor_id position h = rw (← ok-injective h) empty-IsPlace
seen_position-IsPlace movement (some positions) actor_id position h =
    elim (Option-cases (get? actor_id positions)) [
      | inl missing ↦
          let none_there : ok empty ≡ ok position = rw (missing, seen_position) at h in
          rw (← ok-injective none_there) empty-IsPlace
      | inr (value, found) ↦
          seen_location-IsPlace movement value actor_id position (rw (found, seen_position) at h)
    ]

perceive_position-IsPlace :
    (state : JsonObject) (actor_id : String) (position : JsonObject)
    → perceive_position state actor_id ≡ ok position
    → IsPlace position
unfolding perceive_position
perceive_position-IsPlace state actor_id position h =
    elim (Option-cases (as_object (get "movement" state))) [
      | inl missing ↦
          let none_there : ok empty ≡ ok position = rw (missing, perceive_position) at h in
          rw (← ok-injective none_there) empty-IsPlace
      | inr (movement, found) ↦
          seen_position-IsPlace movement (as_object (get "positions" movement)) actor_id position
            (rw (found, perceive_position) at h)
    ]

pub locate-full :
    (state : JsonObject) (actor_id prefix : String) (v : JsonValue) (l : String)
    → locate state actor_id prefix ≡ ok v
    → as_text v ≡ some l
    → is_empty l ≡ false
unfolding locate item
locate-full state actor_id prefix v l h k =
    let (position, got, h₁) =
      >>=-eq-ok (rethrow_value_error _ (perceive_position state actor_id)) _ h in
    let (_, _, h₂) = >>=-eq-ok (raise_if (is_missing position) _) _ h₁ in
    perceive_position-IsPlace state actor_id position (rethrow-eq-ok _ _ position got) v l
      (or_raise-eq-ok (get? "location_id" position) _ v h₂) k
