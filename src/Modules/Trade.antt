-- ===== src/Modules/Trade.antt =====
-- modules/trade/models.py: wallets, offers, and the transfer of a payment.
pub mod Payment
pub mod Handlers
pub mod Purchase
use journey_map.Prelude.{
  ℕ, ◌+◌, ◌-◌, String, Bool, not, ◌||◌, Option, none, some, List, [], ◌∷◌, is_empty, ◌==◌, ltb,
  if◌then◌else◌, is_some,
}
use journey_map.Prelude.Int.{ℤ, pos, is_negative, pos_part, ltb_ℤ}
use journey_map.Prelude.Exec.{
  Result, ok, err, validation, value_error, ◌>>=◌, ◌>>◌, raise_if, or_raise, rethrow_value_error,
}
use journey_map.Json.{
  JsonObject, JsonValue, empty, field, object, integer, text, boolean, get?, get, has, insert,
  as_object, as_text, as_integer, as_boolean, is_int, is_text, clone_json_object,
}
use journey_map.Modules.Rows.{member_object}
use journey_map.Modules.Inventory.{table_of}

pub record Wallet : Type 0 where
  pub actor_id : String
  pub balance : ℕ

-- `Wallet(...)` with its `__post_init__`.
unfoldable pub make_wallet : String → ℤ → Result Wallet
make_wallet actor_id balance = do
  raise_if (is_empty actor_id) value_error
  raise_if (is_negative balance) value_error
  ok (record { actor_id = actor_id; balance = pos_part balance })

pub record Offer : Type 0 where
  pub offer_id : String
  pub seller_id : String
  pub item_id : String
  pub unit_price : ℕ
  pub active : Bool

-- `Offer(...)` with its `__post_init__`; the price may be any JSON value.
unfoldable pub make_offer : String → String → String → JsonValue → Bool → Result Offer
make_offer offer_id seller_id item_id unit_price active = do
  raise_if (is_empty offer_id || is_empty seller_id || is_empty item_id) value_error
  price ← or_raise (as_integer unit_price) value_error
  raise_if (is_negative price) value_error
  ok (record {
    offer_id = offer_id;
    seller_id = seller_id;
    item_id = item_id;
    unit_price = pos_part price;
    active = active;
  })

unfoldable pub to_json : Offer → JsonObject
to_json offer = field "offer_id" (text offer.offer_id) (
    field "seller_id" (text offer.seller_id) (
      field "item_id" (text offer.item_id) (
        field "unit_price" (integer (pos offer.unit_price))
          (field "active" (boolean offer.active) empty))))

-- The loops of `trade_state`, each from its table so far.
unfoldable pub add_wallets : List Wallet → JsonObject → Result JsonObject
add_wallets [] balances = ok balances
add_wallets (w ∷ wallets) balances = do
  raise_if (has w.actor_id balances) value_error
  add_wallets wallets (insert w.actor_id (integer (pos w.balance)) balances)

unfoldable pub add_offers : JsonObject → List Offer → JsonObject → Result JsonObject
unfolding to_json
add_offers balances [] listings = ok listings
add_offers balances (offer ∷ offers) listings = do
  raise_if (has offer.offer_id listings) value_error
  raise_if (not (has offer.seller_id balances)) value_error
  add_offers balances offers (insert offer.offer_id (object (to_json offer)) listings)

unfoldable pub trade_state : List Wallet → List Offer → Result JsonObject
unfolding add_wallets add_offers
trade_state wallets offers = do
  balances ← add_wallets wallets empty
  listings ← add_offers balances offers empty
  ok (field "wallets" (object balances) (field "offers" (object listings) empty))

unfoldable pub balance_of : JsonValue → Result ℕ
balance_of value = do
  balance ← or_raise (as_integer value) (validation "INVALID_WALLET")
  raise_if (is_negative balance) (validation "INVALID_WALLET")
  ok (pos_part balance)

unfoldable pub wallet_balance : JsonObject → String → Result ℕ
unfolding balance_of
wallet_balance state actor = do
  wallets ← or_raise (table_of "trade" "wallets" state) (validation "INVALID_WALLET")
  value ← or_raise (get? actor wallets) (validation "MISSING_WALLET")
  balance_of value

unfoldable pub get_offer : JsonObject → String → Result Offer
unfolding make_offer
get_offer state offer_id = do
  offers ← or_raise (table_of "trade" "offers" state) (validation "INVALID_OFFER")
  value ← or_raise (get? offer_id offers) (validation "UNKNOWN_OFFER")
  row ← or_raise (as_object value) (validation "INVALID_OFFER")
  raise_if (not (is_text (get "offer_id" row) offer_id)) (validation "INVALID_OFFER")
  seller ← or_raise (as_text (get "seller_id" row)) (validation "INVALID_OFFER")
  item ← or_raise (as_text (get "item_id" row)) (validation "INVALID_OFFER")
  raise_if (not (is_int (get "unit_price" row))) (validation "INVALID_OFFER")
  active ← or_raise (as_boolean (get "active" row)) (validation "INVALID_OFFER")
  rethrow_value_error (validation "INVALID_OFFER")
      (make_offer offer_id seller item (get "unit_price" row) active)

-- `wallets[buyer] = …` and `wallets[seller] = …`, in the candidate.
unfoldable pub write_wallets : String → ℕ → String → ℕ → JsonObject → Result JsonObject
write_wallets buyer buyer_balance seller seller_balance candidate = do
  wallets ← member_object "wallets" candidate
  ok (
      insert "wallets"
        (object (
          insert seller (integer (pos seller_balance))
            (insert buyer (integer (pos buyer_balance)) wallets)))
        candidate)

-- What the buyer keeps is not below zero, since it was compared before.
unfoldable pub payment_candidate : JsonObject → String → String → ℤ → Result JsonObject
unfolding write_wallets
payment_candidate state buyer seller total = do
  raise_if (is_negative total) (validation "INVALID_PRICE")
  raise_if (buyer == seller) (validation "SELF_PURCHASE")
  balance ← wallet_balance state buyer
  raise_if (ltb balance (pos_part total)) (validation "INSUFFICIENT_FUNDS")
  trade ← member_object "trade" state
  candidate ← clone_json_object trade
  income ← wallet_balance state seller
  write_wallets buyer (balance - pos_part total) seller (income + pos_part total) candidate
