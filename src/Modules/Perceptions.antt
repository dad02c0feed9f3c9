-- ===== src/Modules/Perceptions.antt =====
-- The files perception.py of modules/inventory, modules/survival and modules/trade.
use journey_map.Prelude.{
  ℕ, String, Bool, true, false, Option, none, some, List, [], ◌∷◌, ◌==◌, if◌then◌else◌,
}
use journey_map.Prelude.Int.{pos}
use journey_map.Prelude.Dict.{Dict}
use journey_map.Prelude.Exec.{Result, ok, value_error, ◌>>=◌, ◌>>◌, or_raise}
use journey_map.Json.{
  JsonObject, JsonValue, JsonArray, nil, cons, array, object, integer, empty, field, get, get?,
  keys, as_object, as_text, as_boolean, same_value,
}
use journey_map.Core.Entities.{get_entity}
use journey_map.Core.Modules.{sort_texts}
use journey_map.Modules.Inventory.{owned_quantities, item_definition}
use journey_map.Modules.Survival
use journey_map.Modules.Survival.{actor_survival}
use journey_map.Modules.Movement.{perceive_position}
use journey_map.Modules.Trade
use journey_map.Modules.Trade.{get_offer, wallet_balance}

abbrev pub quantities_json : Dict ℕ → JsonObject
quantities_json [] = empty
quantities_json ((item, quantity) ∷ owned) =
    field item (integer (pos quantity)) (quantities_json owned)

unfoldable pub perceive_inventory : JsonObject → String → Result JsonObject
perceive_inventory state actor_id = do
  owned ← owned_quantities state actor_id
  ok (quantities_json owned)

unfoldable pub perceive_survival : JsonObject → String → Result JsonObject
perceive_survival state actor_id = do
  survival ← actor_survival state actor_id
  ok (Survival.to_json survival)

-- `row.get("active") is True`
abbrev pub is_true : Option Bool → Bool
is_true none = false
is_true (some b) = b

-- The seller of a row that another actor offers.
abbrev pub seller_of : String → JsonValue → Option String
seller_of actor_id row = elim (as_object row) [
  | none ↦ none
  | some o ↦ elim (is_true (as_boolean (get "active" o))) [
    | false ↦ none
    | true ↦ elim (as_text (get "seller_id" o)) [
      | none ↦ none
      | some seller ↦ if seller == actor_id then none else some seller
    ]
  ]
]

-- Whether the seller is a run entity in the place.
unfoldable pub is_local : JsonObject → JsonValue → String → Result Bool
is_local state location seller = do
  found ← get_entity state seller
  elim found [
    | none ↦ ok false
    | some entity ↦ perceive_position state seller >>= λ position.
        ok (same_value (get "location_id" position) location)
  ]

unfoldable pub offer_json : JsonObject → String → Result JsonValue
offer_json state offer_id = do
  offer ← get_offer state offer_id
  item_definition state offer.item_id
  ok (object (Trade.to_json offer))

-- One round of the loop, before the rounds after it.
unfoldable pub visible_offer :
    JsonObject → JsonValue → String → Option String → Result (Option JsonValue)
unfolding is_local offer_json
visible_offer state location offer_id none = ok none
visible_offer state location offer_id (some seller) = do
  here ← is_local state location seller
  elim here [ false ↦ ok none | true ↦ offer_json state offer_id >>= λ shown. ok (some shown) ]

unfoldable pub visible_offers :
    JsonObject → JsonValue → String → JsonObject → List String → Result JsonArray
unfolding visible_offer
visible_offers state location actor_id offers [] = ok nil
visible_offers state location actor_id offers (offer_id ∷ ids) = do
  shown ← visible_offer state location offer_id (seller_of actor_id (get offer_id offers))
  rest ← visible_offers state location actor_id offers ids
  ok (elim shown [ none ↦ rest | some value ↦ cons value rest ])

unfoldable pub offers_at : Option JsonValue → JsonObject → String → JsonObject → Result JsonArray
unfolding visible_offers
offers_at none state actor_id offers = ok nil
offers_at (some location) state actor_id offers =
    visible_offers state location actor_id offers (sort_texts (keys offers))

unfoldable pub perceive_trade : JsonObject → String → Result JsonObject
unfolding offers_at
perceive_trade state actor_id = do
  balance ← wallet_balance state actor_id
  position ← perceive_position state actor_id
  trade ← or_raise (as_object (get "trade" state)) value_error
  offers ← or_raise (as_object (get "offers" trade)) value_error
  visible ← offers_at (get? "location_id" position) state actor_id offers
  ok (field "wallet" (integer (pos balance)) (field "offers" (array visible) empty))
