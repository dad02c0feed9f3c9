-- ===== src/Application/Reasons.antt =====
-- application/reasons.py: the reasons that may cross the boundary to a controller.
use journey_map.Prelude.{String, Bool, List, [], ◌∷◌, ◌==◌, any}

abbrev pub is_in : List String → String → Bool
is_in reasons reason = any (λ r. r == reason) reasons

abbrev pub visible_domain_reasons : List String
visible_domain_reasons =
    "INVALID_PAYLOAD" ∷ "INVALID_DURATION" ∷ "UNKNOWN_ACTOR" ∷ "INVALID_ENTITY" ∷ "MISSING_POSITION"
    ∷ "INVALID_POSITION" ∷ "UNKNOWN_ROUTE" ∷ "INVALID_ROUTE" ∷ "UNKNOWN_LOCATION"
    ∷ "INVALID_LOCATION" ∷ "WRONG_ORIGIN" ∷ "ROUTE_IMPASSABLE" ∷ "INVALID_TRAVERSAL_COST"
    ∷ "INVALID_PASSABILITY" ∷ "ROUTE_CHANGED" ∷ "SELF_TARGET" ∷ "UNKNOWN_TARGET" ∷ "INVALID_TARGET"
    ∷ "TARGET_MISSING_POSITION" ∷ "TARGET_INVALID_POSITION" ∷ "OUT_OF_RANGE" ∷ "INVALID_QUANTITY"
    ∷ "UNKNOWN_ITEM" ∷ "UNKNOWN_INVENTORY_OWNER" ∷ "INVALID_INVENTORY_STATE"
    ∷ "INSUFFICIENT_QUANTITY" ∷ "MISSING_SURVIVAL_STATE" ∷ "INVALID_SURVIVAL_STATE"
    ∷ "ITEM_NOT_CONSUMABLE" ∷ "INVALID_WALLET" ∷ "MISSING_WALLET" ∷ "UNKNOWN_OFFER"
    ∷ "INVALID_OFFER" ∷ "OFFER_UNAVAILABLE" ∷ "SELF_PURCHASE" ∷ "INSUFFICIENT_FUNDS"
    ∷ "INSUFFICIENT_STOCK" ∷ "OFFER_CHANGED" ∷ "UNKNOWN_SELLER" ∷ "INVALID_SELLER"
    ∷ "SELLER_MISSING_POSITION" ∷ "SELLER_INVALID_POSITION" ∷ []

abbrev pub private_purchase_reasons : List String
private_purchase_reasons =
    "INVALID_WALLET" ∷ "MISSING_WALLET" ∷ "INVALID_INVENTORY_STATE" ∷ "UNKNOWN_INVENTORY_OWNER"
    ∷ "UNKNOWN_ITEM" ∷ []

abbrev pub turn_failure_codes : List String
turn_failure_codes =
    "OBSERVATION_UNAVAILABLE" ∷ "CONTROLLER_ERROR" ∷ "INVALID_CONTROLLER_OUTPUT" ∷ "UNKNOWN_ACTION"
    ∷ "INVALID_PAYLOAD" ∷ "INVALID_DURATION" ∷ "INVALID_QUANTITY" ∷ "SUBMISSION_ERROR" ∷ []

abbrev pub fallback_reasons : List String
fallback_reasons = "ACTION_REJECTED" ∷ "ACTION_FAILED" ∷ []
