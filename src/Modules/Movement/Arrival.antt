-- ===== src/Modules/Movement/Arrival.antt =====
-- A move starts where its actor stands, follows an open route, and ends at its destination.
use mathlib.Core.Path.{subst}
use journey_map.Prelude.{
  String, ◌≡◌, refl, sym, ap, ◌∙◌, Bool, true, false, not, Option, some, some-eq-some, ◌==◌,
  if◌then◌else◌, eq_iff, Option-cases, Bool-cases, inl, inr, List, [], ◌∷◌, is_empty,
}
use journey_map.Prelude.Int.{pos, is_nonpositive}
use journey_map.Prelude.Exec.{
  ok, validation, value_error, >>=-eq-ok, or_raise-eq-ok, ok-injective, raise_if, or_raise,
}
use journey_map.Json.{
  JsonObject, JsonValue, null, boolean, integer, float, array, object, empty, field, text,
  has_exactly, clone_json_object, canonical, canonical_object, is_canonical_object, as_text, get?,
  get, as_object, as_integer, as_boolean, is_text,
}
use journey_map.Json.Laws.{map_canonical, get?-canonical}
use journey_map.Core.Rng.{DeterministicRng}
use journey_map.Core.Events.{EventDraft, make_draft}
use journey_map.Core.Handlers.{ActionRequest, ResolutionContext, TransitionPlan, make_plan}
use journey_map.Modules.Rows.{cell, row?, member?, put-cell, cell-canonical}
use journey_map.Modules.Inventory.Transfer.{as_object-get}
use journey_map.Modules.Movement.{
  Route, ActorPosition, make_route, make_position, position_json, identity,
}
use journey_map.Modules.Movement.Handlers.{
  object_or, text_or_invalid, validate_move_payload, check_location, own_location, find_route,
  moved_actor, resolve_move,
}

-- Where a movement table says that an actor is.
abbrev pub whereabouts : String → JsonObject → Option JsonValue
whereabouts who movement = cell "positions" who "location_id" movement

object_or-some :
    (reason : String) (v : JsonValue) (o : JsonObject)
    → object_or reason v ≡ ok o
    → as_object v ≡ some o
unfolding object_or
object_or-some reason v o h = or_raise-eq-ok (as_object v) (validation reason) o h

raised_not :
    (b : Bool) (reason : String) (u : Unit {0})
    → raise_if (not b) (validation reason) ≡ ok u
    → b ≡ true
raised_not true reason u h = refl
raised_not false reason u h = cc

make_route-fields :
    (id origin destination : String) (cost : JsonValue) (passable : Bool) (r : Route)
    → make_route id origin destination cost passable ≡ ok r
    → r.destination ≡ destination
unfolding make_route
make_route-fields id origin destination cost passable r h =
    let (_, _, h₁) = >>=-eq-ok (identity id) _ h in
    let (_, _, h₂) = >>=-eq-ok (identity origin) _ h₁ in
    let (_, _, h₃) = >>=-eq-ok (identity destination) _ h₂ in
    let (c, _, h₄) = >>=-eq-ok (or_raise (as_integer cost) value_error) _ h₃ in
    let (_, _, h₅) = >>=-eq-ok (raise_if (is_nonpositive c) value_error) _ h₄ in
    sym (ap (λ s. s.destination) (ok-injective h₅))

as_text-some : (v : JsonValue) (s : String) → as_text v ≡ some s → v ≡ text s
as_text-some (text t) s h = ap text (some-eq-some h)
as_text-some null s h = cc
as_text-some (boolean b) s h = cc
as_text-some (integer z) s h = cc
as_text-some (float n) s h = cc
as_text-some (array xs) s h = cc
as_text-some (object o) s h = cc

as_boolean-some : (v : JsonValue) (b : Bool) → as_boolean v ≡ some b → v ≡ boolean b
as_boolean-some (boolean c) b h = ap boolean (some-eq-some h)
as_boolean-some null b h = cc
as_boolean-some (text t) b h = cc
as_boolean-some (integer z) b h = cc
as_boolean-some (float n) b h = cc
as_boolean-some (array xs) b h = cc
as_boolean-some (object o) b h = cc

-- A member that is read as something other than null is there.
get-some :
    (k : String) (o : JsonObject) (v : JsonValue) → ¬ (null ≡ v) → get k o ≡ v → get? k o ≡ some v
get-some k o v other h = elim (Option-cases (get? k o)) [
  | inl missing ↦ absurd (other (rw (get, missing) at h))
  | inr (w, found) ↦ found ∙ ap some (rw (get, found) at h)
]

member-text :
    (reason k : String) (o : JsonObject) (s : String)
    → text_or_invalid reason (get k o) ≡ ok s
    → get? k o ≡ some (text s)
unfolding text_or_invalid
member-text reason k o s h =
    let (t, read, h₁) = >>=-eq-ok (or_raise (as_text (get k o)) (validation reason)) _ h in
    let (_, _, h₂) = >>=-eq-ok (raise_if (is_empty t) (validation reason)) _ h₁ in
    let same : t ≡ s = ok-injective h₂ in
    get-some k o (text s) (λ e. cc)
      (as_text-some (get k o) t (or_raise-eq-ok _ _ t read) ∙ ap text same)

member-row :
    (reason k : String) (o row : JsonObject)
    → object_or reason (get k o) ≡ ok row
    → row? (get? k o) ≡ some row
member-row reason k o row h = sym (as_object-get k o) ∙ object_or-some reason (get k o) row h

-- A cell of a row that the handler found.
cell-found :
    (table owner k : String) (o rows row : JsonObject)
    → row? (get? table o) ≡ some rows
    → row? (get? owner rows) ≡ some row
    → cell table owner k o ≡ get? k row
cell-found table owner k o rows row t r = rw (t, r) refl

own_location-cell :
    (movement : JsonObject) (actor location : String)
    → own_location movement actor ≡ ok location
    → whereabouts actor movement ≡ some (text location)
unfolding own_location
own_location-cell movement actor location h =
    let (positions, p, h₁) =
      >>=-eq-ok (object_or "MISSING_POSITION" (get "positions" movement)) _ h in
    let (row, r, h₂) = >>=-eq-ok (object_or "MISSING_POSITION" (get actor positions)) _ h₁ in
    let (_, _, h₃) =
      >>=-eq-ok
        (raise_if (not (is_text (get "actor_id" row) actor)) (validation "INVALID_POSITION")) _
        h₂ in
    cell-found "positions" actor "location_id" movement positions row
      (member-row "MISSING_POSITION" "positions" movement positions p)
      (member-row "MISSING_POSITION" actor positions row r)
    ∙ member-text "INVALID_POSITION" "location_id" row location h₃

-- What the movement table says of a route that an actor may take from where it stands.
pub record IsOpenRoute (movement : JsonObject) (actor id destination : String) : Type 0 where
  pub open_ : cell "routes" id "passable" movement ≡ some (boolean true)
  pub starts : cell "routes" id "origin" movement ≡ whereabouts actor movement
  pub ends : cell "routes" id "destination" movement ≡ some (text destination)

-- What a route that is found was read from.
record RouteParts (request : ActionRequest) (state : JsonObject) (route : Route) : Type 0 where
  id : String
  movement : JsonObject
  location : String
  routes : JsonObject
  row : JsonObject
  origin : String
  destination : String
  passable : Bool
  named : validate_move_payload request.payload ≡ ok id
  is_found : object_or "MISSING_POSITION" (get "movement" state) ≡ ok movement
  own : own_location movement request.actor_id ≡ ok location
  table : object_or "UNKNOWN_ROUTE" (get "routes" movement) ≡ ok routes
  entry : object_or "UNKNOWN_ROUTE" (get id routes) ≡ ok row
  from : text_or_invalid "INVALID_ROUTE" (get "origin" row) ≡ ok origin
  to : text_or_invalid "INVALID_ROUTE" (get "destination" row) ≡ ok destination
  way : or_raise (as_boolean (get "passable" row)) (validation "INVALID_PASSABILITY") ≡ ok passable
  here : raise_if (not (location == origin)) (validation "WRONG_ORIGIN") ≡ ok tt
  is_open : raise_if (not passable) (validation "ROUTE_IMPASSABLE") ≡ ok tt
  made : make_route id origin destination (get "traversal_cost" row) passable ≡ ok route

find_route-RouteParts :
    (request : ActionRequest) (state : JsonObject) (route : Route)
    → find_route request state ≡ ok route
    → RouteParts request state route
unfolding find_route
find_route-RouteParts request state route h =
    let (id, named, h₁) = >>=-eq-ok (validate_move_payload request.payload) _ h in
    let (found, is_found, h₂) =
      >>=-eq-ok (object_or "MISSING_POSITION" (get "movement" state)) _ h₁ in
    let (location, own, h₃) = >>=-eq-ok (own_location found request.actor_id) _ h₂ in
    let (routes, rs, h₄) = >>=-eq-ok (object_or "UNKNOWN_ROUTE" (get "routes" found)) _ h₃ in
    let (row, r, h₅) = >>=-eq-ok (object_or "UNKNOWN_ROUTE" (get id routes)) _ h₄ in
    let (_, _, h₆) =
      >>=-eq-ok (raise_if (not (is_text (get "route_id" row) id)) (validation "INVALID_ROUTE")) _
        h₅ in
    let (origin, from, h₇) = >>=-eq-ok (text_or_invalid "INVALID_ROUTE" (get "origin" row)) _ h₆ in
    let (destination, to, h₈) =
      >>=-eq-ok (text_or_invalid "INVALID_ROUTE" (get "destination" row)) _ h₇ in
    let (cost, _, h₉) =
      >>=-eq-ok
        (or_raise (as_integer (get "traversal_cost" row)) (validation "INVALID_TRAVERSAL_COST")) _
        h₈ in
    let (_, _, g₁) =
      >>=-eq-ok (raise_if (is_nonpositive cost) (validation "INVALID_TRAVERSAL_COST")) _ h₉ in
    let (passable, passes, g₂) =
      >>=-eq-ok (or_raise (as_boolean (get "passable" row)) (validation "INVALID_PASSABILITY")) _
        g₁ in
    let (locations, _, g₃) =
      >>=-eq-ok (object_or "UNKNOWN_LOCATION" (get "locations" found)) _ g₂ in
    let (_, _, g₄) = >>=-eq-ok (check_location locations location) _ g₃ in
    let (_, _, g₅) = >>=-eq-ok (check_location locations origin) _ g₄ in
    let (_, _, g₆) = >>=-eq-ok (check_location locations destination) _ g₅ in
    let (_, here, g₇) =
      >>=-eq-ok (raise_if (not (location == origin)) (validation "WRONG_ORIGIN")) _ g₆ in
    let (_, way, g₈) = >>=-eq-ok (raise_if (not passable) (validation "ROUTE_IMPASSABLE")) _ g₇ in
    record {
      id = id;
      movement = found;
      location = location;
      routes = routes;
      row = row;
      origin = origin;
      destination = destination;
      passable = passable;
      named = named;
      is_found = is_found;
      own = own;
      table = rs;
      entry = r;
      from = from;
      to = to;
      way = passes;
      here = here;
      is_open = way;
      made = g₈;
    }

-- The parts are those of an open route that the payload names.
RouteParts-IsOpenRoute :
    (request : ActionRequest) (state : JsonObject) (route : Route)
    (p : RouteParts request state route)
    → (get? "route_id" request.payload ≡ some (text p.id))
      × IsOpenRoute p.movement request.actor_id p.id route.destination
unfolding validate_move_payload
RouteParts-IsOpenRoute request state route p =
    let (_, _, asked) =
      >>=-eq-ok
        (raise_if (not (has_exactly ("route_id" ∷ []) request.payload))
          (validation "INVALID_PAYLOAD"))
        _ p.named in
    let at : (k : String) → cell "routes" p.id k p.movement ≡ get? k p.row = λ k.
      cell-found "routes" p.id k p.movement p.routes p.row
        (member-row "UNKNOWN_ROUTE" "routes" p.movement p.routes p.table)
        (member-row "UNKNOWN_ROUTE" p.id p.routes p.row p.entry) in
    let stands : p.location ≡ p.origin =
      (eq_iff p.location p.origin).0
        (raised_not (p.location == p.origin) "WRONG_ORIGIN" tt p.here) in
    let read =
      get-some "passable" p.row (boolean p.passable) (λ e. cc)
        (as_boolean-some _ p.passable (or_raise-eq-ok _ _ p.passable p.way)) in
    (
      member-text "INVALID_PAYLOAD" "route_id" request.payload p.id asked,
      record {
        open_ =
            at "passable"
            ∙ read
            ∙ ap (λ b. some (boolean b)) (raised_not p.passable "ROUTE_IMPASSABLE" tt p.is_open);
        starts =
            at "origin"
            ∙ member-text "INVALID_ROUTE" "origin" p.row p.origin p.from
            ∙ sym (ap (λ l. some (text l)) stands)
            ∙ sym (own_location-cell p.movement request.actor_id p.location p.own);
        ends =
            at "destination"
            ∙ member-text "INVALID_ROUTE" "destination" p.row p.destination p.to
            ∙ ap (λ d. some (text d))
                (sym (
                  make_route-fields p.id p.origin p.destination (get "traversal_cost" p.row)
                    p.passable route p.made));
      },
    )

-- The route that is found is the one that the payload names, and the actor may take it.
find_route-IsOpenRoute :
    (request : ActionRequest) (state movement : JsonObject) (route : Route)
    → as_object (get "movement" state) ≡ some movement
    → find_route request state ≡ ok route
    → (id : String) × (get? "route_id" request.payload ≡ some (text id))
      × IsOpenRoute movement request.actor_id id route.destination
find_route-IsOpenRoute request state movement route m h =
    let p = find_route-RouteParts request state route h in
    let (named, way) = RouteParts-IsOpenRoute request state route p in
    let same : p.movement ≡ movement =
      some-eq-some (sym (object_or-some _ _ p.movement p.is_found) ∙ m) in
    (p.id, named, subst (λ o. IsOpenRoute o request.actor_id p.id route.destination) same way)

at_destination :
    (actor destination : String) (p : ActorPosition)
    → make_position actor destination ≡ ok p
    → get? "location_id" (position_json p) ≡ some (text destination)
unfolding make_position position_json get?
at_destination actor destination p h =
    let (_, _, h₁) = >>=-eq-ok (identity actor) _ h in
    let (_, _, h₂) = >>=-eq-ok (identity destination) _ h₁ in
    ap (λ l. some (text l)) (sym (ap (λ q. q.location_id) (ok-injective h₂)))

moved_actor-whereabouts :
    (state movement moved : JsonObject) (actor destination who : String)
    → as_object (get "movement" state) ≡ some movement
    → moved_actor state actor destination ≡ ok moved
    → whereabouts who moved
      ≡ (if actor == who then some (text destination) else whereabouts who movement)
unfolding moved_actor
moved_actor-whereabouts state movement moved actor destination who m h =
    let (found, is_found, h₁) =
      >>=-eq-ok (object_or "MISSING_POSITION" (get "movement" state)) _ h in
    let (positions, at, h₂) =
      >>=-eq-ok (object_or "MISSING_POSITION" (get "positions" found)) _ h₁ in
    let (position, made, h₃) = >>=-eq-ok (make_position actor destination) _ h₂ in
    let same : found ≡ movement = some-eq-some (sym (object_or-some _ _ found is_found) ∙ m) in
    let table : row? (get? "positions" found) ≡ some positions =
      sym (as_object-get "positions" found) ∙ object_or-some _ _ positions at in
    let put =
      put-cell "positions" actor who "location_id" (position_json position) positions found in
    rw (← ok-injective h₃) (
      rw (← same) (
        rw table (
          put
          ∙ ap (λ l. if actor == who then l else member? "location_id" (row? (get? who positions)))
              (at_destination actor destination position made))))

-- A plan holds its values in canonical form.
make_plan-set_values :
    (values : JsonObject) (events : List EventDraft) (plan : TransitionPlan)
    → make_plan values [] events ≡ ok plan
    → plan.set_values ≡ canonical_object values
unfolding make_plan clone_json_object
make_plan-set_values values events plan h = elim (Bool-cases (is_canonical_object values)) [
  | inl fine ↦
      sym (ap (λ (q : TransitionPlan). q.set_values) (ok-injective (rw (fine, make_plan) at h)))
  | inr bad ↦ let raised = rw (bad, make_plan) at h in cc
]

-- A move that resolves takes the route that its payload names, which is open and starts where its
-- actor stands. In the movement table that its plan writes, in canonical form, the actor is at the
-- destination that the route's row gives, and every other actor is where it was.
pub resolve_move-arrives :
    (request : ActionRequest) (context : ResolutionContext) (movement : JsonObject)
    (plan : TransitionPlan) (rng : DeterministicRng)
    → as_object (get "movement" context.state) ≡ some movement
    → resolve_move request context ≡ ok (plan, rng)
    → (id : String) × (destination : String) × (written : JsonObject) × (get? "route_id"
          request.payload
        ≡ some (text id))
      × IsOpenRoute movement request.actor_id id destination
      × (get? "movement" plan.set_values ≡ some (object written))
      × ((who : String)
          → whereabouts who written ≡ (
              if request.actor_id == who
              then some (text destination)
              else map_canonical (whereabouts who movement)))
unfolding resolve_move get? canonical
resolve_move-arrives request context movement plan rng m h =
    let (route, found, h₁) = >>=-eq-ok (find_route request context.state) _ h in
    let (moved, went, h₂) =
      >>=-eq-ok (moved_actor context.state request.actor_id route.destination) _ h₁ in
    let (draft, _, h₃) = >>=-eq-ok (make_draft "ActorMoved" (pos 1) _) _ h₂ in
    let (made, planned, h₄) =
      >>=-eq-ok (make_plan (field "movement" (object moved) empty) [] (draft ∷ [])) _ h₃ in
    let (id, named, way) = find_route-IsOpenRoute request context.state movement route m found in
    (
      id,
      route.destination,
      canonical_object moved,
      named,
      way,
      ap (λ (q : TransitionPlan). get? "movement" q.set_values)
            (sym (ap (λ x. x.0) (ok-injective h₄)))
          ∙ ap (get? "movement") (
              make_plan-set_values (field "movement" (object moved) empty) (draft ∷ []) made
                planned)
          ∙ get?-canonical "movement" (field "movement" (object moved) empty),
      λ who.
          cell-canonical "positions" who "location_id" moved
          ∙ rw
              (moved_actor-whereabouts context.state movement moved request.actor_id
                route.destination who m went)
              (elim (Bool-cases (request.actor_id == who)) [
                | inl own ↦ rw own refl
                | inr other ↦ rw other refl
              ]),
    )
