-- ===== src/Modules/Movement.antt =====
-- modules/movement: locations, directed routes, positions, and the closing of routes.
pub mod Handlers
pub mod Closing
pub mod Arrival
use journey_map.Prelude.{
  ℕ, String, Bool, true, false, not, ◌||◌, ◌&&◌, Option, none, some, List, [], ◌∷◌, is_empty, ◌==◌,
  if◌then◌else◌, any, keep, length,
}
use journey_map.Prelude.Int.{ℤ, pos, is_nonpositive, pos_part}
use journey_map.Prelude.Exec.{Result, ok, err, value_error, ◌>>=◌, ◌>>◌, raise_if, or_raise}
use journey_map.Json.{
  JsonObject, JsonValue, empty, field, object, integer, text, boolean, get?, get, has, insert,
  as_object, as_text, as_integer, as_boolean, is_int, is_text, clone_json_object,
}
use journey_map.Core.Modules.{sort_texts}
use journey_map.Modules.Rows.{change_row}

-- `_identity(value)`
unfoldable pub identity : String → Result (Unit {0})
identity value = raise_if (is_empty value) value_error

pub record Location : Type 0 where
  pub location_id : String

unfoldable pub make_location : String → Result Location
unfolding identity
make_location location_id = do identity location_id; ok (record { location_id = location_id })

unfoldable pub location_json : Location → JsonObject
location_json l = field "location_id" (text l.location_id) empty

-- A directed edge.
pub record Route : Type 0 where
  pub route_id : String
  pub origin : String
  pub destination : String
  pub traversal_cost : ℕ
  pub passable : Bool

-- `Route(...)` with its `__post_init__`; the cost may be any JSON value.
unfoldable pub make_route : String → String → String → JsonValue → Bool → Result Route
unfolding identity
make_route route_id origin destination traversal_cost passable = do
  identity route_id
  identity origin
  identity destination
  cost ← or_raise (as_integer traversal_cost) value_error
  raise_if (is_nonpositive cost) value_error
  ok (record {
    route_id = route_id;
    origin = origin;
    destination = destination;
    traversal_cost = pos_part cost;
    passable = passable;
  })

unfoldable pub route_json : Route → JsonObject
route_json r = field "route_id" (text r.route_id) (
    field "origin" (text r.origin) (
      field "destination" (text r.destination) (
        field "traversal_cost" (integer (pos r.traversal_cost))
          (field "passable" (boolean r.passable) empty))))

pub record ActorPosition : Type 0 where
  pub actor_id : String
  pub location_id : String

unfoldable pub make_position : String → String → Result ActorPosition
unfolding identity
make_position actor_id location_id = do
  identity actor_id
  identity location_id
  ok (record { actor_id = actor_id; location_id = location_id })

unfoldable pub position_json : ActorPosition → JsonObject
position_json p =
    field "actor_id" (text p.actor_id) (field "location_id" (text p.location_id) empty)

-- The loops of `movement_state`, each from its table so far.
unfoldable pub add_locations : List Location → JsonObject → Result JsonObject
unfolding location_json
add_locations [] records = ok records
add_locations (l ∷ locations) records = do
  raise_if (has l.location_id records) value_error
  add_locations locations (insert l.location_id (object (location_json l)) records)

unfoldable pub add_routes : JsonObject → List Route → JsonObject → Result JsonObject
unfolding route_json
add_routes locations [] records = ok records
add_routes locations (r ∷ routes) records = do
  raise_if (has r.route_id records) value_error
  raise_if (not (has r.origin locations) || not (has r.destination locations)) value_error
  add_routes locations routes (insert r.route_id (object (route_json r)) records)

unfoldable pub add_positions : JsonObject → List ActorPosition → JsonObject → Result JsonObject
unfolding position_json
add_positions locations [] records = ok records
add_positions locations (p ∷ positions) records = do
  raise_if (has p.actor_id records) value_error
  raise_if (not (has p.location_id locations)) value_error
  add_positions locations positions (insert p.actor_id (object (position_json p)) records)

unfoldable pub movement_state : List Location → List Route → List ActorPosition → Result JsonObject
unfolding add_locations add_routes add_positions
movement_state locations routes positions = do
  location_records ← add_locations locations empty
  route_records ← add_routes location_records routes empty
  position_records ← add_positions location_records positions empty
  ok (
      field "locations" (object location_records)
        (field "routes" (object route_records) (field "positions" (object position_records) empty)))

-- perception.py: what an actor sees of its own position.
unfoldable pub seen_location : JsonObject → String → JsonValue → Result JsonObject
seen_location movement actor_id value = do
  position ← or_raise (as_object value) value_error
  raise_if (not (is_text (get "actor_id" position) actor_id)) value_error
  location_id ← or_raise (as_text (get "location_id" position)) value_error
  raise_if (is_empty location_id) value_error
  locations ← or_raise (as_object (get "locations" movement)) value_error
  location ← or_raise (as_object (get location_id locations)) value_error
  raise_if (not (is_text (get "location_id" location) location_id)) value_error
  ok (field "location_id" (text location_id) empty)

unfoldable pub seen_position : JsonObject → String → Option JsonObject → Result JsonObject
unfolding seen_location
seen_position movement actor_id none = ok empty
seen_position movement actor_id (some positions) = elim (get? actor_id positions) [
  | none ↦ ok empty
  | some value ↦ seen_location movement actor_id value
]

unfoldable pub perceive_position : JsonObject → String → Result JsonObject
unfolding seen_position
perceive_position state actor_id = elim (as_object (get "movement" state)) [
  | none ↦ ok empty
  | some movement ↦ seen_position movement actor_id (as_object (get "positions" movement))
]

-- transitions.py: the checks of a route that is to be closed.
unfoldable pub check_endpoint : JsonObject → String → Result (Unit {0})
check_endpoint locations endpoint = do
  location ← or_raise (as_object (get endpoint locations)) value_error
  raise_if (not (is_text (get "location_id" location) endpoint)) value_error

unfoldable pub check_closure : JsonObject → JsonObject → String → Result (Unit {0})
unfolding check_endpoint make_route
check_closure routes locations route_id = do
  row ← or_raise (as_object (get route_id routes)) value_error
  raise_if (not (is_text (get "route_id" row) route_id)) value_error
  origin ← or_raise (as_text (get "origin" row)) value_error
  destination ← or_raise (as_text (get "destination" row)) value_error
  raise_if (not (is_int (get "traversal_cost" row))) value_error
  passable ← or_raise (as_boolean (get "passable" row)) value_error
  make_route route_id origin destination (get "traversal_cost" row) passable
  check_endpoint locations origin
  check_endpoint locations destination

-- The loop over the routes: a row of the candidate is changed in place.
unfoldable pub close_all : List String → JsonObject → Result JsonObject
unfolding check_closure
close_all [] candidate = ok candidate
close_all (route_id ∷ route_ids) candidate = do
  routes ← or_raise (as_object (get "routes" candidate)) value_error
  locations ← or_raise (as_object (get "locations" candidate)) value_error
  check_closure routes locations route_id
  changed ← change_row "routes" route_id (insert "passable" (boolean false)) candidate
  close_all route_ids changed

unfoldable pub repeats : List String → Bool
repeats [] = false
repeats (k ∷ ks) = any (λ j. j == k) ks || repeats ks

abbrev pub is_nothing : List String → Bool
is_nothing [] = true
is_nothing (k ∷ ks) = false

unfoldable pub close_routes : JsonObject → List String → Result JsonObject
unfolding close_all repeats
close_routes state route_ids = do
  raise_if (is_nothing route_ids || repeats route_ids) value_error
  movement ← or_raise (as_object (get "movement" state)) value_error
  candidate ← clone_json_object movement
  or_raise (as_object (get "routes" candidate)) value_error
  or_raise (as_object (get "locations" candidate)) value_error
  close_all (sort_texts route_ids) candidate
