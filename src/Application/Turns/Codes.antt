-- ===== src/Application/Turns/Codes.antt =====
-- The codes that a turn can fail with.
use mathlib.Core.Path.{subst}
use journey_map.Prelude.{
  some_injective, ℕ, String, ◌≡◌, refl, ap, inl, inr, Bool, true, false, not, ◌||◌, Option, none,
  some, List, [], ◌∷◌, ◌++◌, is_empty, ◌==◌, if◌then◌else◌, Bool-cases, Option-cases, all,
}
use journey_map.Prelude.Int.{pos, eqb_ℤ, is_nonpositive}
use journey_map.Prelude.Exec.{
  Result, ok, err, validation, key_error, ◌>>=◌, ◌>>◌, raise_if, or_raise,
}
use journey_map.Json.{JsonObject, JsonValue, has, has_exactly, every, get, as_text, as_integer}
use journey_map.Core.Actions.{validate_wait_payload}
use journey_map.Core.Handlers.{ActionRequest}
use journey_map.Modules.Inventory.{positive_quantity}
use journey_map.Modules.Movement.Handlers.{validate_move_payload, text_or_invalid}
use journey_map.Modules.Social.{validate_payload, required_keys, optional_keys, has_only, fits}
use journey_map.Modules.Survival.Handlers.{validate_rest_payload, validate_consume_payload}
use journey_map.Modules.Trade.Handlers.{validate_buy_payload}
use journey_map.Application.Reasons.{is_in, turn_failure_codes}
use journey_map.Application.Contracts.{validate_v1, validate_action_contract, validator_of}

-- The reasons of a parser are failure codes of a turn.
abbrev IsCoded {ℓ} : {A : Type ℓ} → Result A → Type ℓ
IsCoded r = (s : String) → r ≡ err (validation s) → is_in turn_failure_codes s ≡ true

module _ {ℓ} {A : Type ℓ} where
  IsCoded-ok : (a : A) → IsCoded (ok a)
  IsCoded-ok a s h = cc

  IsCoded-or_raise :
      (o : Option A) (reason : String)
      → is_in turn_failure_codes reason ≡ true
      → IsCoded (or_raise o (validation reason))
  IsCoded-or_raise none reason coded s h = let same : reason ≡ s = cc in rw (← same) coded
  IsCoded-or_raise (some a) reason coded s h = cc

IsCoded-raise_if :
    (b : Bool) (reason : String)
    → is_in turn_failure_codes reason ≡ true
    → IsCoded (raise_if b (validation reason))
IsCoded-raise_if true reason coded s h = let same : reason ≡ s = cc in rw (← same) coded
IsCoded-raise_if false reason coded s h = cc

module _ {A B : Type 0} where
  IsCoded-then :
      (r : Result A) (next : A → Result B)
      → IsCoded r
      → ((a : A) → IsCoded (next a))
      → IsCoded (r >>= next)
  IsCoded-then (ok a) next first_ later s h = later a s h
  IsCoded-then (err e) next first_ later s h =
      first_ s (let same : e ≡ validation s = cc in ap err same)

text_or_invalid-IsCoded : (v : JsonValue) → IsCoded (text_or_invalid "INVALID_PAYLOAD" v)
unfolding text_or_invalid
text_or_invalid-IsCoded v =
    IsCoded-then (or_raise (as_text v) (validation "INVALID_PAYLOAD")) _
      (IsCoded-or_raise (as_text v) "INVALID_PAYLOAD" refl)
      (λ s.
        IsCoded-then (raise_if (is_empty s) (validation "INVALID_PAYLOAD")) _
          (IsCoded-raise_if (is_empty s) "INVALID_PAYLOAD" refl) (λ _. IsCoded-ok s))

validate_move_payload-IsCoded : (payload : JsonObject) → IsCoded (validate_move_payload payload)
unfolding validate_move_payload
validate_move_payload-IsCoded payload =
    IsCoded-then
      (raise_if (not (has_exactly ("route_id" ∷ []) payload)) (validation "INVALID_PAYLOAD")) _
      (IsCoded-raise_if (not (has_exactly ("route_id" ∷ []) payload)) "INVALID_PAYLOAD" refl)
      (λ _. text_or_invalid-IsCoded (get "route_id" payload))

validate_wait_payload-IsCoded : (payload : JsonObject) → IsCoded (validate_wait_payload payload)
unfolding validate_wait_payload
validate_wait_payload-IsCoded payload =
    IsCoded-then
      (raise_if (not (has_exactly ("duration" ∷ []) payload)) (validation "INVALID_PAYLOAD")) _
      (IsCoded-raise_if (not (has_exactly ("duration" ∷ []) payload)) "INVALID_PAYLOAD" refl)
      (λ _.
        IsCoded-then
          (or_raise (as_integer (get "duration" payload)) (validation "INVALID_DURATION")) _
          (IsCoded-or_raise (as_integer (get "duration" payload)) "INVALID_DURATION" refl)
          (λ n.
            IsCoded-then (raise_if (is_nonpositive n) (validation "INVALID_DURATION")) _
              (IsCoded-raise_if (is_nonpositive n) "INVALID_DURATION" refl) (λ _. IsCoded-ok _)))

positive_quantity-IsCoded : (v : JsonValue) → IsCoded (positive_quantity v)
unfolding positive_quantity
positive_quantity-IsCoded v =
    IsCoded-then (or_raise (as_integer v) (validation "INVALID_QUANTITY")) _
      (IsCoded-or_raise (as_integer v) "INVALID_QUANTITY" refl)
      (λ n.
        IsCoded-then (raise_if (is_nonpositive n) (validation "INVALID_QUANTITY")) _
          (IsCoded-raise_if (is_nonpositive n) "INVALID_QUANTITY" refl) (λ _. IsCoded-ok _))

-- CONSUME and BUY ask for one text and a quantity.
quantity_of-IsCoded :
    (ks : List String) (key : String) (payload : JsonObject)
    → IsCoded {A = String × ℕ} (
        raise_if (not (has_exactly ks payload)) (validation "INVALID_PAYLOAD")
        >> (or_raise (as_text (get key payload)) (validation "INVALID_PAYLOAD") >>= λ id.
            raise_if (is_empty id) (validation "INVALID_PAYLOAD")
            >> (positive_quantity (get "quantity" payload) >>= λ n. ok (id, n))))
quantity_of-IsCoded ks key payload =
    IsCoded-then (raise_if (not (has_exactly ks payload)) (validation "INVALID_PAYLOAD")) _
      (IsCoded-raise_if (not (has_exactly ks payload)) "INVALID_PAYLOAD" refl)
      (λ _.
        IsCoded-then (or_raise (as_text (get key payload)) (validation "INVALID_PAYLOAD")) _
          (IsCoded-or_raise (as_text (get key payload)) "INVALID_PAYLOAD" refl)
          (λ id.
            IsCoded-then (raise_if (is_empty id) (validation "INVALID_PAYLOAD")) _
              (IsCoded-raise_if (is_empty id) "INVALID_PAYLOAD" refl)
              (λ _.
                IsCoded-then (positive_quantity (get "quantity" payload)) _
                  (positive_quantity-IsCoded (get "quantity" payload)) (λ n. IsCoded-ok (id, n)))))

validate_payload-IsCoded :
    (action_type : String) (payload : JsonObject) → IsCoded (validate_payload action_type payload)
unfolding validate_payload
validate_payload-IsCoded action_type payload =
    IsCoded-then (or_raise (required_keys action_type) key_error) _
      (λ s h. no_key (required_keys action_type) s h)
      (λ required.
        IsCoded-then (raise_if _ (validation "INVALID_PAYLOAD")) _
          (IsCoded-raise_if
            (not (all (λ k. has k payload) required)
              || not (has_only (required ++ optional_keys action_type) payload))
            "INVALID_PAYLOAD" refl)
          (λ _. IsCoded-raise_if (not (every fits payload)) "INVALID_PAYLOAD" refl))
  where
    no_key :
        (o : Option (List String)) (s : String)
        → or_raise o key_error ≡ err (validation s)
        → is_in turn_failure_codes s ≡ true
    no_key none s h = cc
    no_key (some ks) s h = cc

abbrev Parser : Type 0
Parser = JsonObject → Result (Unit {0})

-- One row of the table of parsers, and the rows after it.
row_or_later :
    (payload : JsonObject) (b : Bool) (p q : Parser) (rest : Option Parser)
    → (if b then some p else rest) ≡ some q
    → IsCoded (p payload)
    → (rest ≡ some q → IsCoded (q payload))
    → IsCoded (q payload)
row_or_later payload true p q rest h now later =
    subst (λ r. IsCoded (r payload)) (some_injective h) now
row_or_later payload false p q rest h now later = later h

no_row : (q : Parser) (payload : JsonObject) → none ≡ some q → IsCoded (q payload)
no_row q payload h = cc

validate_v1-IsCoded :
    (action_type : String) (q : Parser) (payload : JsonObject)
    → validate_v1 action_type ≡ some q
    → IsCoded (q payload)
unfolding validate_v1 validate_rest_payload validate_consume_payload validate_buy_payload
validate_v1-IsCoded action_type q payload h =
    row_or_later payload (action_type == "MOVE") _ q _ h
      (IsCoded-then (validate_move_payload payload) _ (validate_move_payload-IsCoded payload)
        (λ _. IsCoded-ok tt))
      (λ h.
        row_or_later payload (action_type == "WAIT") _ q _ h
          (IsCoded-then (validate_wait_payload payload) _ (validate_wait_payload-IsCoded payload)
            (λ _. IsCoded-ok tt))
          (λ h.
            row_or_later payload (action_type == "ASK") _ q _ h
              (validate_payload-IsCoded "ASK" payload)
              (λ h.
                row_or_later payload (action_type == "INFORM") _ q _ h
                  (validate_payload-IsCoded "INFORM" payload)
                  (λ h.
                    row_or_later payload (action_type == "REQUEST") _ q _ h
                      (validate_payload-IsCoded "REQUEST" payload)
                      (λ h.
                        row_or_later payload (action_type == "REST") _ q _ h
                          (IsCoded-then (validate_wait_payload payload) _
                            (validate_wait_payload-IsCoded payload) (λ _. IsCoded-ok tt))
                          (λ h.
                            row_or_later payload (action_type == "CONSUME") _ q _ h
                              (IsCoded-then (validate_consume_payload payload) _
                                (quantity_of-IsCoded ("item_id" ∷ "quantity" ∷ []) "item_id"
                                  payload)
                                (λ _. IsCoded-ok tt))
                              (λ h.
                                row_or_later payload (action_type == "BUY") _ q _ h
                                  (IsCoded-then (validate_buy_payload payload) _
                                    (quantity_of-IsCoded ("offer_id" ∷ "quantity" ∷ []) "offer_id"
                                      payload)
                                    (λ _. IsCoded-ok tt))
                                  (λ h. no_row q payload h))))))))

validator_of-IsCoded :
    (request : ActionRequest) (q : Parser)
    → validator_of request.action_type request.schema_version ≡ some q
    → IsCoded (q request.payload)
validator_of-IsCoded request q h = elim (Bool-cases (eqb_ℤ request.schema_version (pos 1))) [
  | inl first_ ↦ validate_v1-IsCoded request.action_type q request.payload (rw first_ at h)
  | inr other ↦ no_row q request.payload (rw other at h)
]

pub validate_action_contract-IsCoded :
    (request : ActionRequest) (s : String)
    → validate_action_contract request ≡ err (validation s)
    → is_in turn_failure_codes s ≡ true
unfolding validate_action_contract
validate_action_contract-IsCoded request s h =
    elim (Option-cases (validator_of request.action_type request.schema_version)) [
      | inl missing ↦
          let gone : or_raise {A = Unit {0}} none (validation "UNKNOWN_ACTION")
              ≡ err (validation s) =
            rw (missing, validate_action_contract) at h in
          IsCoded-or_raise {A = Unit {0}} none "UNKNOWN_ACTION" refl s gone
      | inr (q, found) ↦
          validator_of-IsCoded request q found s (rw (found, validate_action_contract) at h)
    ]
