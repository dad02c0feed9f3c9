-- ===== src/Modules/Survival.antt =====
-- modules/survival/models.py: hunger and fatigue of actors, between 0 and 100.
pub mod Handlers
pub mod Pressure
use journey_map.Prelude.{
  ℕ, ◌+◌, ◌-◌, ◌*◌, String, Bool, not, ◌||◌, Option, none, some, List, [], ◌∷◌, is_empty,
  if◌then◌else◌, ltb, any,
}
use journey_map.Prelude.Int.{ℤ, pos, is_negative, is_nonpositive, pos_part, ltb_ℤ}
use journey_map.Prelude.Exec.{
  Result, ok, err, validation, value_error, ◌>>=◌, ◌>>◌, raise_if, or_raise, rethrow_value_error,
}
use journey_map.Json.{
  JsonObject, JsonValue, empty, field, object, integer, get?, get, insert, as_object, as_integer,
  is_int, clone_json_object,
}
use journey_map.Core.Entities.{Entity, get_entity}
use journey_map.Modules.Rows.{member_object, change_row}
use journey_map.Modules.Inventory.{table_of, item_definition}

abbrev pub hunger_per_tick : ℕ
hunger_per_tick = 2

abbrev pub fatigue_per_tick : ℕ
fatigue_per_tick = 1

abbrev pub rest_recovery_per_tick : ℕ
rest_recovery_per_tick = 3

pub record SurvivalState : Type 0 where
  pub hunger : ℕ
  pub fatigue : ℕ

-- `type(value) is int and 0 <= value <= 100`, or the constructor raises.
unfoldable pub pressure : JsonValue → Result ℕ
pressure value = do
  n ← or_raise (as_integer value) value_error
  raise_if (is_negative n || ltb_ℤ (pos 100) n) value_error
  ok (pos_part n)

-- `SurvivalState(hunger, fatigue)` with its `__post_init__`.
unfoldable pub make_survival : JsonValue → JsonValue → Result SurvivalState
unfolding pressure
make_survival hunger fatigue = do
  h ← pressure hunger
  f ← pressure fatigue
  ok (record { hunger = h; fatigue = f })

unfoldable pub to_json : SurvivalState → JsonObject
to_json s =
    field "hunger" (integer (pos s.hunger)) (field "fatigue" (integer (pos s.fatigue)) empty)

unfoldable pub actor_records : List (String × SurvivalState) → JsonObject → JsonObject
unfolding to_json
actor_records [] o = o
actor_records ((actor, value) ∷ actors) o =
    actor_records actors (insert actor (object (to_json value)) o)

unfoldable pub effects : List (String × ℤ) → JsonObject → JsonObject
effects [] o = o
effects ((item, effect) ∷ consumables) o = effects consumables (insert item (integer effect) o)

unfoldable pub survival_state :
    List (String × SurvivalState) → List (String × ℤ) → Result JsonObject
unfolding actor_records effects
survival_state actors consumables = do
  raise_if (any (λ entry. is_empty entry.0) actors) value_error
  raise_if (any (λ entry. is_empty entry.0 || is_nonpositive entry.1) consumables) value_error
  ok (
      field "actors" (object (actor_records actors empty))
        (field "consumables" (object (effects consumables empty)) empty))

unfoldable pub actor_survival : JsonObject → String → Result SurvivalState
unfolding make_survival
actor_survival state actor = do
  actors ← or_raise (table_of "survival" "actors" state) (validation "INVALID_SURVIVAL_STATE")
  value ← or_raise (get? actor actors) (validation "MISSING_SURVIVAL_STATE")
  row ← or_raise (as_object value) (validation "INVALID_SURVIVAL_STATE")
  raise_if (not (is_int (get "hunger" row)) || not (is_int (get "fatigue" row)))
      (validation "INVALID_SURVIVAL_STATE")
  rethrow_value_error (validation "INVALID_SURVIVAL_STATE") (
      get_entity state actor >>= λ entity.
      or_raise entity value_error >>= λ _. make_survival (get "hunger" row) (get "fatigue" row))

unfoldable pub hunger_recovery : JsonObject → String → Result ℕ
hunger_recovery state item_id = do
  item_definition state item_id
  table ← or_raise (table_of "survival" "consumables" state) (validation "INVALID_SURVIVAL_STATE")
  value ← or_raise (get? item_id table) (validation "ITEM_NOT_CONSUMABLE")
  effect ← or_raise (as_integer value) (validation "INVALID_SURVIVAL_STATE")
  raise_if (is_nonpositive effect) (validation "INVALID_SURVIVAL_STATE")
  ok (pos_part effect)

-- `row.update(value.to_json())`
unfoldable pub update_row : SurvivalState → JsonObject → JsonObject
update_row s row =
    insert "fatigue" (integer (pos s.fatigue)) (insert "hunger" (integer (pos s.hunger)) row)

unfoldable pub survival_candidate : JsonObject → String → SurvivalState → Result JsonObject
unfolding update_row
survival_candidate state actor value = do
  actor_survival state actor
  survival ← member_object "survival" state
  candidate ← clone_json_object survival
  change_row "actors" actor (update_row value) candidate
