-- ===== src/Modules/Trade/Purchase.antt =====
-- What a purchase moves: goods one way, and their price the other way.
use journey_map.Prelude.{
  ℕ, ◌+◌, ◌-◌, ◌*◌, ◌≤◌, String, ◌≡◌, ◌&&◌, ◌==◌, if◌then◌else◌, Bool-cases, inl, inr,
}
use journey_map.Prelude.Int.{pos}
use journey_map.Prelude.Exec.{Result, ok, err, validation, >>=-eq-ok, ok-injective}
use journey_map.Json.{JsonObject}
use journey_map.Core.Handlers.{ActionRequest, ValidationContext}
use journey_map.Modules.Inventory.{transfer_candidate}
use journey_map.Modules.Inventory.Transfer.{held, stock, transfer_candidate-held}
use journey_map.Modules.Trade.{Offer, payment_candidate}
use journey_map.Modules.Trade.Payment.{purse, funds, payment_candidate-purse}
use journey_map.Modules.Trade.Handlers.{
  Purchase, purchase, local_offer, bought_inventory, as_stock, validate_buy_payload,
}

as_stock-eq-ok : (r : Result JsonObject) (o : JsonObject) → as_stock r ≡ ok o → r ≡ ok o
unfolding as_stock
as_stock-eq-ok (ok p) o h = h
as_stock-eq-ok (err (validation reason)) o h =
    elim (Bool-cases (reason == "INSUFFICIENT_QUANTITY")) [
      | inl short ↦
          (let clash : Path (Result JsonObject) (err (validation "INSUFFICIENT_STOCK")) (ok o) =
              rw short at h in
            cc)
      | inr other ↦
          (let clash : Path (Result JsonObject) (err (validation reason)) (ok o) = rw other at h in
            cc)
    ]
as_stock-eq-ok (err _) o h = absurd (cc)

bought_inventory-transfers :
    (request : ActionRequest) (context : ValidationContext) (offer : Offer) (asked : String × ℕ)
    (inventory : JsonObject)
    → validate_buy_payload request.payload ≡ ok asked
    → bought_inventory request context offer ≡ ok inventory
    → transfer_candidate context.state offer.seller_id request.actor_id offer.item_id asked.1
      ≡ ok inventory
unfolding bought_inventory
bought_inventory-transfers request context offer asked inventory read h =
    as_stock-eq-ok _ inventory (rw read at h)

-- A purchase that succeeds moves the quantity of the offered item from the seller to the buyer and the
-- unit price times the quantity from the buyer to the seller. The seller had the goods and the buyer
-- the money; what others hold, of what items, and what is in their wallets stays.
pub purchase-moves :
    (request : ActionRequest) (context : ValidationContext) (done : Purchase) (who item : String)
    → purchase request context ≡ ok done
    → (let buyer = request.actor_id in
        let seller = done.offer.seller_id in
        let total = done.offer.unit_price * done.quantity in
        (done.quantity ≤ stock context.state seller done.offer.item_id)
        × (total ≤ funds context.state buyer)
        × (held done.inventory who item ≡ (
            if buyer == who && done.offer.item_id == item
            then stock context.state buyer done.offer.item_id + done.quantity
            else if seller == who && done.offer.item_id == item
            then stock context.state seller done.offer.item_id - done.quantity
            else stock context.state who item))
        × (purse done.trade who ≡ (
            if seller == who
            then funds context.state seller + total
            else if buyer == who
            then funds context.state buyer - total
            else funds context.state who)))
unfolding purchase
purchase-moves request context done who item h =
    let (offer, _, h₁) = >>=-eq-ok (local_offer request context) _ h in
    let (asked, read, h₂) = >>=-eq-ok (validate_buy_payload request.payload) _ h₁ in
    let (inventory, moved, h₃) = >>=-eq-ok (bought_inventory request context offer) _ h₂ in
    let (trade, paid, h₄) =
      >>=-eq-ok
        (payment_candidate context.state request.actor_id offer.seller_id
          (pos (offer.unit_price * asked.1)))
        _ h₃ in
    let given =
      transfer_candidate-held context.state inventory offer.seller_id request.actor_id offer.item_id
        asked.1 who item
        (bought_inventory-transfers request context offer asked inventory read moved) in
    let pays =
      payment_candidate-purse context.state trade request.actor_id offer.seller_id
        (pos (offer.unit_price * asked.1)) who paid in
    rw (← ok-injective h₄) (given.1, pays.1, given.2, pays.2)
