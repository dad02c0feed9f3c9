-- ===== src/Tests/Domain.antt =====
-- The theorems on the domain modules at a small state.
use journey_map.Prelude.{
  ℕ, ◌+◌, ◌-◌, ◌*◌, ◌≤◌, String, ◌≡◌, refl, Bool, true, false, ◌&&◌, none, some, [], ◌∷◌, ◌==◌,
  text_ltb, arith, if◌then◌else◌,
}
use journey_map.Prelude.Int.{pos}
use journey_map.Prelude.Dict.{lookup}
use journey_map.Prelude.Exec.{ok}
use journey_map.Json.{
  JsonObject, empty, field, object, integer, text, boolean, get?, get, insert, insert_sorted,
  has_exactly, keys, as_object, is_canonical_object, canonical_object, clone_json_object,
  same_value,
}
use journey_map.Json.Laws.{map_canonical}
use journey_map.Core.Entities.{get_entity}
use journey_map.Core.Actions.{validate_actor}
use journey_map.Core.Modules.{sort_texts}
use journey_map.Core.Handlers.{
  ActionRequest, ValidationContext, ResolutionContext, TransitionPlan, make_plan,
}
use journey_map.Core.Rng.{DeterministicRng}
use journey_map.Core.Events.{make_draft}
use journey_map.Modules.Rows.{member_object, change_row}
use journey_map.Modules.Inventory.{
  table_of, item_definition, owned_quantities, positive_quantity, transfer_candidate,
}
use journey_map.Modules.Inventory.Transfer.{held, stock, transfer_candidate-held}
use journey_map.Modules.Survival.{SurvivalState}
use journey_map.Modules.Survival.Handlers.{rested, fed, ticked, at_most_100}
use journey_map.Modules.Survival.Pressure.{pressures_in_range}
use journey_map.Modules.Movement.{perceive_position, close_routes}
use journey_map.Modules.Movement.Closing.{passability, among, close_routes-passability}
use journey_map.Modules.Movement.{make_route, make_position, position_json}
use journey_map.Modules.Movement.Handlers.{find_route, moved_actor, resolve_move}
use journey_map.Modules.Movement.Arrival.{IsOpenRoute, whereabouts, resolve_move-arrives}
use journey_map.Modules.Trade.{Offer, get_offer, wallet_balance, payment_candidate}
use journey_map.Modules.Trade.Payment.{purse, funds, payment_candidate-purse}
use journey_map.Modules.Trade.Handlers.{Purchase, purchase}
use journey_map.Modules.Trade.Purchase.{purchase-moves}

abbrev person : String → JsonObject
person id = field "entity_id" (text id) (field "entity_type" (text "actor") empty)

abbrev place : String → String → JsonObject
place id at = field "actor_id" (text id) (field "location_id" (text at) empty)

abbrev bread : ℕ → ℕ → JsonObject
bread mara tobin =
    field "items" (object (field "bread" (object (field "item_id" (text "bread") empty)) empty)) (
      field "owners"
        (object (
          field "mara" (object (field "bread" (integer (pos mara)) empty))
            (field "tobin" (object (field "bread" (integer (pos tobin)) empty)) empty)))
        empty)

abbrev road : Bool → JsonObject
road open_ = field "destination" (text "mill") (
    field "origin" (text "inn") (
      field "passable" (boolean open_)
        (field "route_id" (text "road") (field "traversal_cost" (integer (pos 2)) empty))))

-- mara stands at the place, and tobin in the inn.
abbrev standing : String → Bool → JsonObject
standing at open_ =
    field "locations"
      (object (
        field "inn" (object (field "location_id" (text "inn") empty))
          (field "mill" (object (field "location_id" (text "mill") empty)) empty)))
      (field "positions"
        (object (
          field "mara" (object (place "mara" at))
            (field "tobin" (object (place "tobin" "inn")) empty)))
        (field "routes" (object (field "road" (object (road open_)) empty)) empty))

abbrev movement : Bool → JsonObject
movement open_ = standing "inn" open_

abbrev offer : Offer
offer = record {
  offer_id = "offer";
  seller_id = "tobin";
  item_id = "bread";
  unit_price = 3;
  active = true;
}

abbrev trade : ℕ → ℕ → JsonObject
trade mara tobin =
    field "offers"
      (object (
        field "offer"
          (object (
            field "active" (boolean true) (
              field "item_id" (text "bread") (
                field "offer_id" (text "offer") (
                  field "seller_id" (text "tobin") (field "unit_price" (integer (pos 3)) empty))))))
          empty))
      (field "wallets"
        (object (field "mara" (integer (pos mara)) (field "tobin" (integer (pos tobin)) empty)))
        empty)

abbrev state : JsonObject
state =
    field "entities"
      (object
        (field "mara" (object (person "mara")) (field "tobin" (object (person "tobin")) empty)))
      (field "inventory" (object (bread 1 5))
        (field "movement" (object (movement true)) (field "trade" (object (trade 20 4)) empty)))

abbrev buy : ActionRequest
buy = record {
  action_request_id = "buy";
  run_id = "run";
  actor_id = "mara";
  based_on_observation_id = "observation";
  submitted_at = 0;
  action_type = "BUY";
  schema_version = pos 1;
  payload = field "offer_id" (text "offer") (field "quantity" (integer (pos 2)) empty);
  correlation_id = none;
}

abbrev context : ValidationContext
context = record { run_id = "run"; simulation_time = 0; state = state }

abbrev bought : Purchase
bought = record { offer = offer; quantity = 2; inventory = bread 3 3; trade = trade 14 10 }

transferred : transfer_candidate state "tobin" "mara" "bread" 2 ≡ ok (bread 3 3)
unfolding transfer_candidate owned_quantities item_definition get_entity get? insert insert_sorted
    lookup member_object clone_json_object is_canonical_object change_row canonical_object table_of
    text_ltb
transferred = refl

paid : payment_candidate state "mara" "tobin" (pos 6) ≡ ok (trade 14 10)
unfolding payment_candidate wallet_balance get? insert insert_sorted lookup member_object
    clone_json_object is_canonical_object change_row canonical_object table_of text_ltb
paid = refl

purchased : purchase buy context ≡ ok bought
unfolding purchase has_exactly keys positive_quantity validate_actor get_entity get_offer
    perceive_position same_value transfer_candidate owned_quantities item_definition
    payment_candidate wallet_balance get? insert insert_sorted lookup member_object
    clone_json_object is_canonical_object change_row canonical_object table_of text_ltb
purchased = refl

closed : close_routes state ("road" ∷ []) ≡ ok (movement false)
unfolding close_routes sort_texts get? insert insert_sorted lookup member_object clone_json_object
    is_canonical_object change_row canonical_object table_of text_ltb
closed = refl

transfer_candidate-held_example :
    (("tobin" == "mara") ≡ false)
    × (2 ≤ stock state "tobin" "bread")
    × (held (bread 3 3) "mara" "bread" ≡ (
        if "mara" == "mara" && "bread" == "bread"
        then stock state "mara" "bread" + 2
        else if "tobin" == "mara" && "bread" == "bread"
        then stock state "tobin" "bread" - 2
        else stock state "mara" "bread"))
transfer_candidate-held_example =
    transfer_candidate-held state (bread 3 3) "tobin" "mara" "bread" 2 "mara" "bread" transferred

payment_candidate-purse_example :
    (("mara" == "tobin") ≡ false)
    × (6 ≤ funds state "mara")
    × (purse (trade 14 10) "tobin" ≡ (
        if "tobin" == "tobin"
        then funds state "tobin" + 6
        else if "mara" == "tobin"
        then funds state "mara" - 6
        else funds state "tobin"))
payment_candidate-purse_example =
    payment_candidate-purse state (trade 14 10) "mara" "tobin" (pos 6) "tobin" paid

purchase-moves_example :
    (2 ≤ stock state "tobin" "bread")
    × (6 ≤ funds state "mara")
    × (held (bread 3 3) "tobin" "bread" ≡ (
        if "mara" == "tobin" && "bread" == "bread"
        then stock state "mara" "bread" + 2
        else if "tobin" == "tobin" && "bread" == "bread"
        then stock state "tobin" "bread" - 2
        else stock state "tobin" "bread"))
    × (purse (trade 14 10) "tobin" ≡ (
        if "tobin" == "tobin"
        then funds state "tobin" + 6
        else if "mara" == "tobin"
        then funds state "mara" - 6
        else funds state "tobin"))
purchase-moves_example = purchase-moves buy context bought "tobin" "bread" purchased

has_movement : as_object (get "movement" state) ≡ some (movement true)
unfolding get?
has_movement = refl

close_routes-passability_example : passability "road" (movement false) ≡ (
    if among "road" ("road" ∷ [])
    then some (boolean false)
    else map_canonical (passability "road" (movement true)))
close_routes-passability_example =
    close_routes-passability state (movement true) (movement false) ("road" ∷ []) "road"
      has_movement closed

abbrev worn : SurvivalState
worn = record { hunger = 99; fatigue = 10 }

pressures_in_range_example :
    (rested 4 worn ≡ ok (record { hunger = 99; fatigue = 10 - 4 * 3 }))
    × (fed 20 2 worn ≡ ok (record { hunger = 99 - 20 * 2; fatigue = 10 }))
    × (ticked worn ≡ ok (record { hunger = at_most_100 101; fatigue = at_most_100 11 }))
pressures_in_range_example = pressures_in_range worn 4 20 2 (omega arith) (omega arith)

abbrev walk : ActionRequest
walk = record buy {
  action_request_id = "walk";
  action_type = "MOVE";
  payload = field "route_id" (text "road") empty;
}

abbrev rng : DeterministicRng
rng = record { state = 7; draw_count = 0 }

abbrev resolution : ResolutionContext
resolution = record { run_id = "run"; simulation_time = 0; state = state; rng = rng }

abbrev walk_plan : TransitionPlan
walk_plan = record {
  set_values = field "movement" (object (standing "mill" true)) empty;
  delete_keys = [];
  events =
      record {
        event_type = "ActorMoved";
        schema_version = pos 1;
        payload = field "actor_id" (text "mara") (
            field "destination" (text "mill")
              (field "origin" (text "inn") (field "route_id" (text "road") empty)));
      }
      ∷ [];
}

walked : resolve_move walk resolution ≡ ok (walk_plan, rng)
unfolding resolve_move find_route moved_actor has_exactly keys make_route make_position
    position_json get? insert insert_sorted make_draft make_plan clone_json_object
    is_canonical_object canonical_object text_ltb
walked = refl

resolve_move-arrives_example :
    (id : String) × (destination : String) × (written : JsonObject) × (get? "route_id" walk.payload
      ≡ some (text id))
    × IsOpenRoute (movement true) "mara" id destination
    × (get? "movement" walk_plan.set_values ≡ some (object written))
    × ((who : String)
        → whereabouts who written ≡ (
            if "mara" == who
            then some (text destination)
            else map_canonical (whereabouts who (movement true))))
resolve_move-arrives_example =
    resolve_move-arrives walk resolution (movement true) walk_plan rng has_movement walked
