-- ===== src/Modules/Inventory.antt =====
-- modules/inventory: items, the quantities that owners hold, and candidates of changes.
pub mod Transfer
use journey_map.Prelude.{
  ℕ, ◌+◌, ◌-◌, String, Bool, not, ◌||◌, Option, none, some, List, [], ◌∷◌, is_empty, ◌==◌, ltb,
  if◌then◌else◌,
}
use journey_map.Prelude.Int.{ℤ, pos, is_negative, is_nonpositive, pos_part}
use journey_map.Prelude.Dict.{Dict, lookup}
use journey_map.Prelude.Exec.{
  Result, ok, err, validation, value_error, key_error, ◌>>=◌, ◌>>◌, raise_if, or_raise,
  rethrow_value_error,
}
use journey_map.Json.{
  JsonObject, JsonValue, empty, field, text, object, integer, get?, get, has, insert, insert_sorted,
  as_object, as_integer, is_text, clone_json_object,
}
use journey_map.Core.Entities.{Entity, get_entity}
use journey_map.Modules.Rows.{member_object, change_row}

pub record ItemDefinition : Type 0 where
  pub item_id : String

unfoldable pub make_item : String → Result ItemDefinition
make_item item_id = do raise_if (is_empty item_id) value_error; ok (record { item_id = item_id })

unfoldable pub to_json : ItemDefinition → JsonObject
to_json item = field "item_id" (text item.item_id) empty

-- The loops of `inventory_state`, each from its table so far.
unfoldable pub add_items : List ItemDefinition → JsonObject → Result JsonObject
unfolding to_json
add_items [] definitions = ok definitions
add_items (item ∷ items) definitions = do
  raise_if (has item.item_id definitions) value_error
  add_items items (insert item.item_id (object (to_json item)) definitions)

unfoldable pub add_entries : JsonObject → List (String × ℤ) → JsonObject → Result JsonObject
add_entries definitions [] row = ok row
add_entries definitions ((item_id, quantity) ∷ entries) row = do
  raise_if (not (has item_id definitions) || is_negative quantity) value_error
  add_entries definitions entries (insert item_id (integer quantity) row)

unfoldable pub add_owners :
    JsonObject → List (String × List (String × ℤ)) → JsonObject → Result JsonObject
unfolding add_entries
add_owners definitions [] quantities = ok quantities
add_owners definitions ((owner, entries) ∷ owners) quantities = do
  raise_if (is_empty owner) value_error
  row ← add_entries definitions entries empty
  add_owners definitions owners (insert owner (object row) quantities)

unfoldable pub inventory_state :
    List ItemDefinition → List (String × List (String × ℤ)) → Result JsonObject
unfolding add_items add_owners
inventory_state items owners = do
  definitions ← add_items items empty
  quantities ← add_owners definitions owners empty
  ok (field "items" (object definitions) (field "owners" (object quantities) empty))

-- `inventory.get(table) if isinstance(inventory, dict) else None`, where it is a dict.
unfoldable pub table_of : String → String → JsonObject → Option JsonObject
table_of name table state = elim (as_object (get name state)) [
  | none ↦ none
  | some module_state ↦ as_object (get table module_state)
]

unfoldable pub item_definition : JsonObject → String → Result ItemDefinition
unfolding table_of make_item
item_definition state item_id = do
  items ← or_raise (table_of "inventory" "items" state) (validation "INVALID_INVENTORY_STATE")
  value ← or_raise (get? item_id items) (validation "UNKNOWN_ITEM")
  row ← or_raise (as_object value) (validation "INVALID_INVENTORY_STATE")
  raise_if (not (is_text (get "item_id" row) item_id) || is_empty item_id)
      (validation "INVALID_INVENTORY_STATE")
  make_item item_id

-- `sorted(row.items())`: the keys are distinct, so their order decides.
unfoldable pub sorted_items : JsonObject → JsonObject
sorted_items empty = empty
sorted_items (field k v o) = insert_sorted k v (sorted_items o)

unfoldable pub quantity_at_least_zero : JsonValue → Result ℕ
quantity_at_least_zero value = do
  quantity ← or_raise (as_integer value) (validation "INVALID_INVENTORY_STATE")
  raise_if (is_negative quantity) (validation "INVALID_INVENTORY_STATE")
  ok (pos_part quantity)

-- The loop over the items of a row.
unfoldable pub collect : JsonObject → JsonObject → Result (Dict ℕ)
unfolding quantity_at_least_zero item_definition
collect state empty = ok []
collect state (field item_id value row) = do
  item_definition state item_id
  quantity ← quantity_at_least_zero value
  rest ← collect state row
  ok ((item_id, quantity) ∷ rest)

unfoldable pub owned_quantities : JsonObject → String → Result (Dict ℕ)
unfolding collect sorted_items table_of
owned_quantities state owner = do
  entity ← rethrow_value_error (validation "INVALID_INVENTORY_STATE") (get_entity state owner)
  or_raise entity (validation "UNKNOWN_INVENTORY_OWNER")
  owners ← or_raise (table_of "inventory" "owners" state) (validation "INVALID_INVENTORY_STATE")
  value ← or_raise (get? owner owners) (validation "UNKNOWN_INVENTORY_OWNER")
  row ← or_raise (as_object value) (validation "INVALID_INVENTORY_STATE")
  collect state (sorted_items row)

unfoldable pub positive_quantity : JsonValue → Result ℕ
positive_quantity value = do
  quantity ← or_raise (as_integer value) (validation "INVALID_QUANTITY")
  raise_if (is_nonpositive quantity) (validation "INVALID_QUANTITY")
  ok (pos_part quantity)

-- `owned.get(item_id, 0)`
abbrev pub amount : String → Dict ℕ → ℕ
amount item_id owned = elim (lookup item_id owned) [ none ↦ 0 | some n ↦ n ]

-- What is left of `owned` is not below zero, since it was compared before.
unfoldable pub decrement_candidate : JsonObject → String → String → ℕ → Result JsonObject
unfolding positive_quantity
decrement_candidate state owner item_id quantity = do
  positive_quantity (integer (pos quantity))
  item_definition state item_id
  owned ← owned_quantities state owner
  raise_if (ltb (amount item_id owned) quantity) (validation "INSUFFICIENT_QUANTITY")
  inventory ← member_object "inventory" state
  candidate ← clone_json_object inventory
  change_row "owners" owner (insert item_id (integer (pos (amount item_id owned - quantity))))
      candidate

unfoldable pub transfer_candidate : JsonObject → String → String → String → ℕ → Result JsonObject
unfolding positive_quantity decrement_candidate
transfer_candidate state source target item_id quantity = do
  positive_quantity (integer (pos quantity))
  raise_if (source == target) (validation "SELF_TRANSFER")
  target_owned ← owned_quantities state target
  candidate ← decrement_candidate state source item_id quantity
  change_row "owners" target
      (insert item_id (integer (pos (amount item_id target_owned + quantity)))) candidate
