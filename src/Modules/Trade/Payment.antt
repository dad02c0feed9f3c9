-- ===== src/Modules/Trade/Payment.antt =====
-- A payment moves money from one wallet to another, and loses nothing.
use journey_map.Prelude.{
  ℕ, ◌+◌, ◌-◌, ◌≤◌, String, ◌≡◌, refl, sym, ◌∙◌, false, some, ◌==◌, ltb, if◌then◌else◌, arith, inl,
  inr, Bool-cases,
}
use journey_map.Prelude.Int.{ℤ, pos, negsuc, is_negative, pos_part}
use journey_map.Prelude.Exec.{
  ok, validation, >>=-eq-ok, or_raise-eq-ok, ok-injective, raise_if, or_raise,
}
use journey_map.Json.{
  JsonObject, JsonValue, integer, null, boolean, float, text, array, object, get?, insert,
  clone_json_object,
}
use journey_map.Json.Laws.{get?-insert, get?-canonical}
use journey_map.Modules.Rows.{member_object, row?, member?, member_object-eq-ok, row?-canonical}
use journey_map.Modules.Inventory.{table_of}
use journey_map.Modules.Inventory.Transfer.{units, units-canonical, table_of-row, clone-canonical}
use journey_map.Modules.Trade.{balance_of, wallet_balance, write_wallets, payment_candidate}

-- What the wallets of a trade table hold, and those of a state.
abbrev pub purse : JsonObject → String → ℕ
purse trade who = units (member? who (row? (get? "wallets" trade)))

abbrev pub funds : JsonObject → String → ℕ
funds state who = units (member? who (row? (member? "wallets" (row? (get? "trade" state)))))

balance-units : (v : JsonValue) (n : ℕ) → balance_of v ≡ ok n → n ≡ units (some v)
unfolding balance_of
balance-units (integer (pos n)) m h = ground arith
balance-units (integer (negsuc n)) m h = ground arith
balance-units null m h = cc
balance-units (boolean b) m h = cc
balance-units (float n) m h = cc
balance-units (text s) m h = cc
balance-units (array xs) m h = cc
balance-units (object o) m h = cc

wallet_balance-funds :
    (state : JsonObject) (who : String) (n : ℕ)
    → wallet_balance state who ≡ ok n
    → n ≡ funds state who
unfolding wallet_balance
wallet_balance-funds state who n h =
    let (wallets, found, h₁) =
      >>=-eq-ok (or_raise (table_of "trade" "wallets" state) (validation "INVALID_WALLET")) _ h in
    let (v, member, h₂) =
      >>=-eq-ok (or_raise (get? who wallets) (validation "MISSING_WALLET")) _ h₁ in
    let table : row? (member? "wallets" (row? (get? "trade" state))) ≡ some wallets =
      sym (table_of-row "trade" "wallets" state) ∙ or_raise-eq-ok _ _ wallets found in
    rw table (rw (or_raise-eq-ok _ _ v member) (balance-units v n h₂))

two-inserts :
    (buyer seller who : String) (a b : ℕ) (wallets : JsonObject)
    → units (get? who (insert seller (integer (pos b)) (insert buyer (integer (pos a)) wallets)))
      ≡ (if seller == who then b else if buyer == who then a else units (get? who wallets))
two-inserts buyer seller who a b wallets =
    rw (get?-insert seller who (integer (pos b)) (insert buyer (integer (pos a)) wallets)) (
      rw (get?-insert buyer who (integer (pos a)) wallets) (elim (Bool-cases (seller == who)) [
        | inl paid ↦ rw paid refl
        | inr other ↦ elim (Bool-cases (buyer == who)) [
          | inl pays ↦ rw other (rw pays refl)
          | inr outside ↦ rw other (rw outside refl)
        ]
      ]))

write_wallets-purse :
    (buyer seller who : String) (a b : ℕ) (o p : JsonObject)
    → write_wallets buyer a seller b o ≡ ok p
    → purse p who ≡ (if seller == who then b else if buyer == who then a else purse o who)
unfolding write_wallets
write_wallets-purse buyer seller who a b o p h =
    let (wallets, got, h₁) = >>=-eq-ok (member_object "wallets" o) _ h in
    let new = insert seller (integer (pos b)) (insert buyer (integer (pos a)) wallets) in
    let put = get?-insert "wallets" "wallets" (object new) o in
    rw (← ok-injective h₁) (
      rw put (
        rw (member_object-eq-ok "wallets" o wallets got)
          (two-inserts buyer seller who a b wallets)))

copied-purse :
    (state trade candidate : JsonObject) (who : String)
    → member_object "trade" state ≡ ok trade
    → clone_json_object trade ≡ ok candidate
    → purse candidate who ≡ funds state who
copied-purse state trade candidate who h e = rw (← clone-canonical trade candidate e) (
    rw (get?-canonical "wallets" trade) (
      rw (row?-canonical who (get? "wallets" trade)) (
        rw (units-canonical (member? who (row? (get? "wallets" trade))))
          (rw (member_object-eq-ok "trade" state trade h) refl))))

guards :
    (total : ℤ) (buyer seller : String) (balance : ℕ) (u v : Unit {0})
    → raise_if (buyer == seller) (validation "SELF_PURCHASE") ≡ ok u
    → raise_if (ltb balance (pos_part total)) (validation "INSUFFICIENT_FUNDS") ≡ ok v
    → ((buyer == seller) ≡ false) × (pos_part total ≤ balance)
guards total buyer seller balance u v h k = (ground arith, ground arith)

-- A payment that succeeds is between two actors, and of no more than the buyer has. The seller then has
-- the total more, the buyer the total less, and every other wallet is as it was.
pub payment_candidate-purse :
    (state candidate : JsonObject) (buyer seller : String) (total : ℤ) (who : String)
    → payment_candidate state buyer seller total ≡ ok candidate
    → ((buyer == seller) ≡ false)
      × (pos_part total ≤ funds state buyer)
      × (purse candidate who ≡ (
          if seller == who
          then funds state seller + pos_part total
          else if buyer == who
          then funds state buyer - pos_part total
          else funds state who))
unfolding payment_candidate
payment_candidate-purse state candidate buyer seller total who h =
    let (_, _, h₁) = >>=-eq-ok (raise_if (is_negative total) (validation "INVALID_PRICE")) _ h in
    let (_, apart, h₂) = >>=-eq-ok (raise_if (buyer == seller) (validation "SELF_PURCHASE")) _ h₁ in
    let (balance, pays, h₃) = >>=-eq-ok (wallet_balance state buyer) _ h₂ in
    let (_, enough, h₄) =
      >>=-eq-ok (raise_if (ltb balance (pos_part total)) (validation "INSUFFICIENT_FUNDS")) _ h₃ in
    let (trade, got, h₅) = >>=-eq-ok (member_object "trade" state) _ h₄ in
    let (copy, cloned, h₆) = >>=-eq-ok (clone_json_object trade) _ h₅ in
    let (income, paid, h₇) = >>=-eq-ok (wallet_balance state seller) _ h₆ in
    let (two, covered) = guards total buyer seller balance _ _ apart enough in
    let from = wallet_balance-funds state buyer balance pays in
    let to = wallet_balance-funds state seller income paid in
    let wrote =
      write_wallets-purse buyer seller who (balance - pos_part total) (income + pos_part total) copy
        candidate h₇ in
    (
      two,
      rw (← from) covered,
      rw (← from) (rw (← to) (rw wrote (rw (copied-purse state trade copy who got cloned) refl))),
    )
