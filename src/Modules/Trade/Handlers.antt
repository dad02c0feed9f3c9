-- ===== src/Modules/Trade/Handlers.antt =====
-- modules/trade/handlers.py: BUY, from an offer of a seller at the same place.
use journey_map.Prelude.{
  ℕ, ◌*◌, String, Bool, true, false, not, some, [], ◌∷◌, is_empty, ◌==◌, if◌then◌else◌,
}
use journey_map.Prelude.Int.{pos}
use journey_map.Prelude.Exec.{
  Result, ok, err, validation, key_error, ◌>>=◌, ◌>>◌, raise_if, or_raise, rethrow_value_error,
}
use journey_map.Json.{
  JsonObject, JsonValue, empty, field, object, integer, text, get?, get, has_exactly, as_text,
  same_value, same_object, canonical_object,
}
use journey_map.Core.Rng.{DeterministicRng}
use journey_map.Core.Entities.{get_entity}
use journey_map.Core.Events.{make_draft}
use journey_map.Core.Handlers.{
  ActionRequest, ActionTiming, ValidationContext, ResolutionContext, TransitionPlan, ActionHandler,
  make_plan, make_timing,
}
use journey_map.Core.Actions.{validate_actor}
use journey_map.Modules.Inventory.{positive_quantity, transfer_candidate}
use journey_map.Modules.Movement.{perceive_position}
use journey_map.Modules.Trade.{Offer, get_offer, payment_candidate, to_json}

unfoldable pub validate_buy_payload : JsonObject → Result (String × ℕ)
validate_buy_payload payload = do
  raise_if (not (has_exactly ("offer_id" ∷ "quantity" ∷ []) payload)) (validation "INVALID_PAYLOAD")
  offer_id ← or_raise (as_text (get "offer_id" payload)) (validation "INVALID_PAYLOAD")
  raise_if (is_empty offer_id) (validation "INVALID_PAYLOAD")
  quantity ← positive_quantity (get "quantity" payload)
  ok (offer_id, quantity)

abbrev pub is_nowhere : JsonObject → Bool
is_nowhere empty = true
is_nowhere (field k v o) = false

-- One round of the loop over the buyer and the seller, with the two reasons of its prefix.
unfoldable pub location_of : JsonObject → String → String → String → Result JsonValue
location_of state invalid missing actor = do
  position ← rethrow_value_error (validation invalid) (perceive_position state actor)
  raise_if (is_nowhere position) (validation missing)
  or_raise (get? "location_id" position) key_error

-- `_local_offer(request, context)`
unfoldable pub local_offer : ActionRequest → ValidationContext → Result Offer
unfolding validate_buy_payload location_of
local_offer request context = do
  asked ← validate_buy_payload request.payload
  validate_actor request context
  offer ← get_offer context.state asked.0
  raise_if (not offer.active) (validation "OFFER_UNAVAILABLE")
  raise_if (request.actor_id == offer.seller_id) (validation "SELF_PURCHASE")
  seller ←
      rethrow_value_error (validation "INVALID_SELLER") (get_entity context.state offer.seller_id)
  or_raise seller (validation "UNKNOWN_SELLER")
  here ← location_of context.state "INVALID_POSITION" "MISSING_POSITION" request.actor_id
  there ←
      location_of context.state "SELLER_INVALID_POSITION" "SELLER_MISSING_POSITION" offer.seller_id
  raise_if (not (same_value here there)) (validation "OUT_OF_RANGE")
  ok offer

-- What `_inventory` makes of an `ActionValidationError` of the inventory.
unfoldable pub as_stock : Result JsonObject → Result JsonObject
as_stock (err (validation reason)) =
    if reason == "INSUFFICIENT_QUANTITY"
    then err (validation "INSUFFICIENT_STOCK")
    else err (validation reason)
as_stock r = r

-- `_inventory(request, context, offer)`
unfoldable pub bought_inventory : ActionRequest → ValidationContext → Offer → Result JsonObject
unfolding as_stock validate_buy_payload
bought_inventory request context offer = do
  asked ← validate_buy_payload request.payload
  as_stock (transfer_candidate context.state offer.seller_id request.actor_id offer.item_id asked.1)

unfoldable pub validate_buy : ActionRequest → ValidationContext → Result (Unit {0})
unfolding local_offer bought_inventory
validate_buy request context = do
  offer ← local_offer request context
  asked ← validate_buy_payload request.payload
  bought_inventory request context offer
  payment_candidate context.state request.actor_id offer.seller_id
      (pos (offer.unit_price * asked.1))
  ok tt

unfoldable pub prepare_buy : ActionRequest → ValidationContext → Result ActionTiming
prepare_buy request context = do
  asked ← validate_buy_payload request.payload
  offer ← get_offer context.state asked.0
  make_timing (pos 1) (to_json offer)

-- The quote was copied when the action started, so it is in the order of its keys.
unfoldable pub validate_buy_completion :
    ActionRequest → ActionTiming → ValidationContext → Result (Unit {0})
unfolding validate_buy
validate_buy_completion request timing context = do
  asked ← validate_buy_payload request.payload
  offer ← get_offer context.state asked.0
  raise_if (not offer.active) (validation "OFFER_UNAVAILABLE")
  raise_if (not (same_object (canonical_object (to_json offer)) timing.timing_data))
      (validation "OFFER_CHANGED")
  validate_buy request context

-- What a purchase comes to.
pub record Purchase : Type 0 where
  pub offer : Offer
  pub quantity : ℕ
  pub inventory : JsonObject
  pub trade : JsonObject

-- The first part of `resolve`, up to its plan.
unfoldable pub purchase : ActionRequest → ValidationContext → Result Purchase
unfolding local_offer bought_inventory
purchase request context = do
  offer ← local_offer request context
  asked ← validate_buy_payload request.payload
  inventory ← bought_inventory request context offer
  trade ←
      payment_candidate context.state request.actor_id offer.seller_id
        (pos (offer.unit_price * asked.1))
  ok (record { offer = offer; quantity = asked.1; inventory = inventory; trade = trade })

unfoldable pub resolve_buy :
    ActionRequest → ResolutionContext → Result (TransitionPlan × DeterministicRng)
unfolding purchase
resolve_buy request context = do
  done ← purchase request (record {
    run_id = context.run_id;
    simulation_time = context.simulation_time;
    state = context.state;
  })
  draft ← make_draft "ItemPurchased" (pos 1) (
      field "buyer_id" (text request.actor_id) (
        field "seller_id" (text done.offer.seller_id) (
          field "offer_id" (text done.offer.offer_id) (
            field "item_id" (text done.offer.item_id) (
              field "quantity" (integer (pos done.quantity)) (
                field "unit_price" (integer (pos done.offer.unit_price)) (
                  field "total_price" (integer (pos (done.offer.unit_price * done.quantity)))
                    empty)))))))
  plan ←
      make_plan
        (field "inventory" (object done.inventory) (field "trade" (object done.trade) empty)) []
        (draft ∷ [])
  ok (plan, context.rng)

unfoldable pub buy_handler : ActionHandler
unfolding validate_buy prepare_buy validate_buy_completion resolve_buy
buy_handler = record {
  handler_id = "trade.buy.v1";
  validate = validate_buy;
  timed = some (record { prepare = prepare_buy; validate_completion = validate_buy_completion });
  resolve = resolve_buy;
}
