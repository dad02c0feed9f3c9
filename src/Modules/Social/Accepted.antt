-- ===== src/Modules/Social/Accepted.antt =====
-- What a resolved interaction commits is accepted.
use journey_map.Prelude.{
  ℕ, String, ◌≡◌, refl, sym, ap, ◌∙◌, inl, inr, Bool, true, false, not, ◌&&◌, ◌||◌, some, List, [],
  ◌∷◌, ◌++◌, is_empty, ◌==◌, arith, all, Bool-cases, eq_iff, some_injective,
}
use journey_map.Prelude.Int.{pos}
use journey_map.Prelude.Exec.{
  ok, validation, value_error, key_error, assertion_error, raise_if, or_raise, rethrow_value_error,
  >>=-eq-ok, or_raise-eq-ok, ok-injective,
}
use journey_map.Json.{
  JsonObject, JsonValue, null, boolean, integer, float, text, array, object, empty, get?, get, has,
  insert, every, as_text, is_text, canonical_object, clone_json_object, is_canonical_object,
  same_value,
}
use journey_map.Json.Laws.{get?-insert}
use journey_map.Json.Members.{and-parts, every-insert, every-map, every-both, has-insert}
use journey_map.Core.Rng.{DeterministicRng}
use journey_map.Core.Run.{SimulationRun, TransitionIdentity, action}
use journey_map.Core.Entities.{get_entity}
use journey_map.Core.Events
use journey_map.Core.Events.{EventEnvelope, EventDraft, make_draft}
use journey_map.Core.Handlers.{
  ActionRequest, ValidationContext, ResolutionContext, TransitionPlan, make_plan,
}
use journey_map.Core.Actions.{validate_actor}
use journey_map.Core.Kernel.Commit.{make_envelope}
use journey_map.Modules.Social.{
  required_keys, optional_keys, is_among, is_full_text, fits, has_only, validate_payload,
  validate_social_event, event_type_of, action_of, item,
}
use journey_map.Modules.Social.Handlers.{
  locate, interaction_location, interaction_payload, resolve_social,
}
use journey_map.Modules.Social.Contract.{
  IsInteraction, IsInteraction-canonical, IsInteraction-payload, or_null, may_hold, is_participant,
}
use journey_map.Modules.Social.Located.{validate_actor-full, locate-full}

-- What the checks of a request give.
validate_payload-holds :
    (action_type : String) (payload : JsonObject) (u : Unit {0})
    → validate_payload action_type payload ≡ ok u
    → (required : List String) × (required_keys action_type ≡ some required)
      × (all (λ k. has k payload) required ≡ true)
      × (has_only (required ++ optional_keys action_type) payload ≡ true)
      × (every fits payload ≡ true)
unfolding validate_payload
validate_payload-holds action_type payload u h =
    let (required, known, h₁) = >>=-eq-ok (or_raise (required_keys action_type) key_error) _ h in
    let present = all (λ k. has k payload) required in
    let only = has_only (required ++ optional_keys action_type) payload in
    let (_, keys, h₂) =
      >>=-eq-ok (raise_if (not present || not only) (validation "INVALID_PAYLOAD")) _ h₁ in
    (
      required,
      or_raise-eq-ok _ _ required known,
      ground (arith, keys),
      ground (arith, keys),
      ground (arith, h₂),
    )

-- What a location that is given shows of the request.
record IsLocated (request : ActionRequest) (location : String) : Type 0 where
  required : List String
  known : required_keys request.action_type ≡ some required
  present : all (λ k. has k request.payload) required ≡ true
  only : has_only (required ++ optional_keys request.action_type) request.payload ≡ true
  fit : every fits request.payload ≡ true
  actor_full : is_empty request.actor_id ≡ false
  target : String
  target_set : get? "target_actor_id" request.payload ≡ some (text target)
  other_target : target == request.actor_id ≡ false
  location_full : is_empty location ≡ false

as_text-eq-some : (v : JsonValue) (s : String) → as_text v ≡ some s → v ≡ text s
as_text-eq-some (text t) s h = ap text (some_injective h)
as_text-eq-some null s h = cc
as_text-eq-some (boolean b) s h = cc
as_text-eq-some (integer z) s h = cc
as_text-eq-some (float n) s h = cc
as_text-eq-some (array xs) s h = cc
as_text-eq-some (object o) s h = cc

interaction_location-IsLocated :
    (request : ActionRequest) (context : ValidationContext) (location : String)
    → interaction_location request context ≡ ok location
    → IsLocated request location
unfolding interaction_location item
interaction_location-IsLocated request context location h =
    let (u, fine, h₁) = >>=-eq-ok (validate_payload request.action_type request.payload) _ h in
    let (w, acts, h₂) = >>=-eq-ok (validate_actor request context) _ h₁ in
    let (value, there, h₃) = >>=-eq-ok (item "target_actor_id" request.payload) _ h₂ in
    let (target, named, h₄) = >>=-eq-ok (or_raise (as_text value) assertion_error) _ h₃ in
    let (_, apart, h₅) =
      >>=-eq-ok (raise_if (target == request.actor_id) (validation "SELF_TARGET")) _ h₄ in
    let (entity, _, h₆) =
      >>=-eq-ok
        (rethrow_value_error (validation "INVALID_TARGET") (get_entity context.state target)) _
        h₅ in
    let (_, _, h₇) = >>=-eq-ok (or_raise entity (validation "UNKNOWN_TARGET")) _ h₆ in
    let (own, placed, h₈) = >>=-eq-ok (locate context.state request.actor_id "") _ h₇ in
    let (other, _, h₉) = >>=-eq-ok (locate context.state target "TARGET_") _ h₈ in
    let (_, _, at_location) =
      >>=-eq-ok (raise_if (not (same_value own other)) (validation "OUT_OF_RANGE")) _ h₉ in
    let (required, known, present, only, fit) =
      validate_payload-holds request.action_type request.payload u fine in
    let is_target = as_text-eq-some value target (or_raise-eq-ok (as_text value) _ target named) in
    record {
      required = required;
      known = known;
      present = present;
      only = only;
      fit = fit;
      actor_full = validate_actor-full request context w acts;
      target = target;
      target_set =
          or_raise-eq-ok (get? "target_actor_id" request.payload) _ value there ∙ ap some is_target;
      other_target = ground (arith, apart);
      location_full =
          locate-full context.state request.actor_id "" own location placed
            (or_raise-eq-ok (as_text own) _ location at_location);
    }

all-has-insert :
    (j : String) (v : JsonValue) (o : JsonObject) (ks : List String)
    → all (λ k. has k o) ks ≡ true
    → all (λ k. has k (insert j v o)) ks ≡ true
all-has-insert j v o [] h = refl
all-has-insert j v o (k ∷ ks) h =
    let (first_, rest) = and-parts (has k o) (all (λ k. has k o) ks) h in
    rw (has-insert j k v o first_) (all-has-insert j v o ks rest)

or-right : (a b : Bool) → b ≡ true → a || b ≡ true
or-right true b h = refl
or-right false b h = h

interaction_payload-IsInteraction :
    (request : ActionRequest) (location : String)
    → IsLocated request location
    → IsInteraction request.action_type request.actor_id (interaction_payload request location)
unfolding interaction_payload
interaction_payload-IsInteraction request location i =
    let allowed = i.required ++ optional_keys request.action_type in
    let sent = insert "sender_actor_id" (text request.actor_id) request.payload in
    let held : every (may_hold allowed) request.payload ≡ true =
      every-map (may_hold allowed) (λ k v. is_among allowed k && fits k v)
        (λ k v h. or-right (is_participant k) (is_among allowed k && fits k v) h) request.payload
        (every-both (λ k v. is_among allowed k) fits request.payload i.only i.fit) in
    let target_set : get? "target_actor_id" (insert "location_id" (text location) sent)
        ≡ some (text i.target) =
      get?-insert "location_id" "target_actor_id" (text location) sent
      ∙ get?-insert "sender_actor_id" "target_actor_id" (text request.actor_id) request.payload
      ∙ i.target_set in
    record {
      required = i.required;
      known = i.known;
      present = all-has-insert "location_id" (text location) sent i.required (
          all-has-insert "sender_actor_id" (text request.actor_id) request.payload i.required
            i.present);
      held = every-insert (may_hold allowed) "location_id" (text location) sent refl (
          every-insert (may_hold allowed) "sender_actor_id" (text request.actor_id) request.payload
            refl held);
      sender_set =
          rw (get?-insert "location_id" "sender_actor_id" (text location) sent) (
            get?-insert "sender_actor_id" "sender_actor_id" (text request.actor_id)
              request.payload);
      sender_full = i.actor_full;
      location = location;
      location_set = get?-insert "location_id" "location_id" (text location) sent;
      location_full = i.location_full;
      other_target = ap (λ v. is_text (or_null v) request.actor_id) target_set ∙ i.other_target;
    }

action_of-event_type_of :
    (action_type event_type : String)
    → event_type_of action_type ≡ some event_type
    → action_of event_type ≡ some action_type
unfolding action_of
action_of-event_type_of action_type event_type h = elim (Bool-cases (action_type == "ASK")) [
  | inl ask ↦ rw (← some_injective (rw ask at h)) (ap some (sym ((eq_iff action_type "ASK").0 ask)))
  | inr no_ask ↦ elim (Bool-cases (action_type == "INFORM")) [
    | inl inform ↦
        rw (← some_injective (rw (no_ask, inform) at h))
          (ap some (sym ((eq_iff action_type "INFORM").0 inform)))
    | inr no_inform ↦ elim (Bool-cases (action_type == "REQUEST")) [
      | inl request ↦
          rw (← some_injective (rw (no_ask, no_inform, request) at h))
            (ap some (sym ((eq_iff action_type "REQUEST").0 request)))
      | inr no_request ↦ (let clash = rw (no_ask, no_inform, no_request) at h in cc)
    ]
  ]
]

clone-canonical : (o copy : JsonObject) → clone_json_object o ≡ ok copy → canonical_object o ≡ copy
unfolding clone_json_object
clone-canonical o copy h = elim (Bool-cases (is_canonical_object o)) [
  | inl fine ↦ ok-injective (rw fine at h)
  | inr bad ↦ (let clash = rw bad at h in cc)
]

-- An event with the payload of an interaction is accepted.
validate_social_event-IsInteraction :
    (action_type sender : String) (event : EventEnvelope)
    → action_of event.event_type ≡ some action_type
    → event.schema_version ≡ pos 1
    → event.source_kind ≡ action
    → IsInteraction action_type sender event.payload
    → validate_social_event event ≡ ok tt
unfolding validate_social_event
validate_social_event-IsInteraction action_type sender event named version source i =
    let sender_set : get "sender_actor_id" event.payload ≡ text sender = ap or_null i.sender_set in
    let location_set : is_full_text (get "location_id" event.payload) ≡ true =
      ap (λ v. is_full_text (or_null v)) i.location_set ∙ ap not i.location_full in
    rw (named, version, source, sender_set, i.sender_full, location_set, i.other_target)
      (IsInteraction-payload action_type sender event.payload i)

make_draft-fields :
    (event_type : String) (payload : JsonObject) (draft : EventDraft)
    → make_draft event_type (pos 1) payload ≡ ok draft
    → (draft.event_type ≡ event_type)
      × (draft.schema_version ≡ pos 1)
      × (draft.payload ≡ canonical_object payload)
unfolding make_draft
make_draft-fields event_type payload draft h =
    let (_, _, h₁) = >>=-eq-ok (raise_if (is_empty event_type) value_error) _ h in
    let (copied, cloned, h₂) = >>=-eq-ok (clone_json_object payload) _ h₁ in
    let result = ok-injective h₂ in
    rw (← result) (refl, refl, sym (clone-canonical payload copied cloned))

make_plan-events :
    (events : List EventDraft) (plan : TransitionPlan)
    → make_plan empty [] events ≡ ok plan
    → plan.events ≡ events
unfolding make_plan
make_plan-events events plan h =
    let (copied, _, h₁) = >>=-eq-ok (clone_json_object empty) _ h in rw (← ok-injective h₁) refl

-- An envelope of an interaction's draft is accepted.
envelope-accepted :
    (action_type sender : String) (draft : EventDraft) (identity : String × ℕ)
    (transition : TransitionIdentity) (run : SimulationRun) (event : EventEnvelope)
    → action_of draft.event_type ≡ some action_type
    → draft.schema_version ≡ pos 1
    → IsInteraction action_type sender draft.payload
    → transition.source_kind ≡ action
    → Events.detached (make_envelope draft identity transition run) ≡ ok event
    → validate_social_event event ≡ ok tt
unfolding Events.detached make_envelope
envelope-accepted action_type sender draft identity transition run event named version i source h =
    let (copied, cloned, h₁) = >>=-eq-ok (clone_json_object draft.payload) _ h in
    let payload : IsInteraction action_type sender copied =
      rw (← clone-canonical draft.payload copied cloned)
        (IsInteraction-canonical action_type sender draft.payload i) in
    let result = ok-injective h₁ in
    rw (← result) (
      validate_social_event-IsInteraction action_type sender
        (record (make_envelope draft identity transition run) { payload = copied }) named version
        source payload)

-- An interaction that is resolved plans one event, and every envelope of it that is committed as
-- an action's passes the check that the readers of interactions make.
pub resolve_social-accepted :
    (request : ActionRequest) (context : ResolutionContext) (plan : TransitionPlan)
    (rng : DeterministicRng)
    → resolve_social request context ≡ ok (plan, rng)
    → (draft : EventDraft) × (plan.events ≡ draft ∷ [])
      × ((identity : String × ℕ) (transition : TransitionIdentity) (run : SimulationRun)
            (event : EventEnvelope)
          → transition.source_kind ≡ action
          → Events.detached (make_envelope draft identity transition run) ≡ ok event
          → validate_social_event event ≡ ok tt)
unfolding resolve_social
resolve_social-accepted request context plan rng h =
    let scope : ValidationContext = record {
      run_id = context.run_id;
      simulation_time = context.simulation_time;
      state = context.state;
    } in
    let (location, located, h₁) = >>=-eq-ok (interaction_location request scope) _ h in
    let (kind, known, h₂) =
      >>=-eq-ok (or_raise (event_type_of request.action_type) key_error) _ h₁ in
    let payload = interaction_payload request location in
    let (draft, drafted, h₃) = >>=-eq-ok (make_draft kind (pos 1) payload) _ h₂ in
    let (made, planned, h₄) = >>=-eq-ok (make_plan empty [] (draft ∷ [])) _ h₃ in
    let (named, version, content) = make_draft-fields kind payload draft drafted in
    let interaction : IsInteraction request.action_type request.actor_id draft.payload =
      rw content (
        IsInteraction-canonical request.action_type request.actor_id payload (
          interaction_payload-IsInteraction request location
            (interaction_location-IsLocated request scope location located))) in
    let action_type : action_of draft.event_type ≡ some request.action_type =
      rw named (action_of-event_type_of request.action_type kind (or_raise-eq-ok _ _ kind known)) in
    let events : plan.events ≡ draft ∷ [] =
      ap (λ p. p.0.events) (sym (ok-injective h₄)) ∙ make_plan-events (draft ∷ []) made planned in
    (
      draft,
      events,
      λ identity transition run event source copied.
          envelope-accepted request.action_type request.actor_id draft identity transition run event
            action_type version interaction source copied,
    )
