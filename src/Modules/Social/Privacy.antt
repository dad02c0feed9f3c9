-- ===== src/Modules/Social/Privacy.antt =====
-- Who an interaction stays hidden from.
use journey_map.Prelude.{
  String, ◌≡◌, refl, ap, inl, inr, false, some, List, [], ◌∷◌, ◌++◌, ◌==◌, arith, Bool-cases,
  eq_iff,
}
use journey_map.Json.{
  JsonValue, null, boolean, integer, float, text, array, object, get, as_text, is_text,
}
use journey_map.Core.Events.{EventEnvelope}
use journey_map.Modules.Social.Perception.{concerns, collect, perceive_social}

is_text-other : (v : JsonValue) (t : String) → ¬ (as_text v ≡ some t) → is_text v t ≡ false
is_text-other (text s) t h = elim (Bool-cases (s == t)) [
  | inl same ↦ absurd (h (ap some ((eq_iff s t).0 same)))
  | inr other ↦ other
]
is_text-other null t h = refl
is_text-other (boolean b) t h = refl
is_text-other (integer z) t h = refl
is_text-other (float n) t h = refl
is_text-other (array xs) t h = refl
is_text-other (object o) t h = refl

concerns-other :
    (event : EventEnvelope) (actor_id : String)
    → is_text (get "sender_actor_id" event.payload) actor_id ≡ false
    → is_text (get "target_actor_id" event.payload) actor_id ≡ false
    → concerns actor_id event ≡ false
concerns-other event actor_id sender target = ground arith

collect-others :
    (before : List EventEnvelope) (event : EventEnvelope) (after : List EventEnvelope)
    (actor_id : String)
    → concerns actor_id event ≡ false
    → collect (before ++ event ∷ after) actor_id ≡ collect (before ++ after) actor_id
unfolding collect
collect-others [] event after actor_id other = rw (other, collect) refl
collect-others (first_ ∷ before) event after actor_id other =
    elim (Bool-cases (concerns actor_id first_)) [
      | inl own ↦ rw (own, collect) (rw (collect-others before event after actor_id other) refl)
      | inr none_of_it ↦ rw (none_of_it, collect) (collect-others before event after actor_id other)
    ]

-- An event that the actor neither sent nor received does not change what the actor perceives,
-- wherever it stands in the log and whatever it says.
pub perceive_social-others :
    (before : List EventEnvelope) (event : EventEnvelope) (after : List EventEnvelope)
    (actor_id : String)
    → ¬ (as_text (get "sender_actor_id" event.payload) ≡ some actor_id)
    → ¬ (as_text (get "target_actor_id" event.payload) ≡ some actor_id)
    → perceive_social (before ++ event ∷ after) actor_id
      ≡ perceive_social (before ++ after) actor_id
unfolding perceive_social
perceive_social-others before event after actor_id sender target =
    let other =
      concerns-other event actor_id
        (is_text-other (get "sender_actor_id" event.payload) actor_id sender)
        (is_text-other (get "target_actor_id" event.payload) actor_id target) in
    rw (collect-others before event after actor_id other) refl
