-- ===== src/Modules/Inventory/Transfer.antt =====
-- A transfer moves a quantity from one owner to another, and loses nothing.
use journey_map.Prelude.{
  ℕ, ◌+◌, ◌-◌, ◌≤◌, String, ◌≡◌, refl, sym, ap, ◌∙◌, Bool, true, false, ◌&&◌, Option, none, some,
  ◌==◌, ltb, if◌then◌else◌, arith, eq_iff, inl, inr, Bool-cases, Option-cases, ◌∷◌,
}
use journey_map.Prelude.Int.{pos, negsuc}
use journey_map.Prelude.Dict.{Dict, lookup}
use journey_map.Prelude.Exec.{
  ok, validation, >>=-eq-ok, or_raise-eq-ok, ok-injective, raise_if, or_raise, rethrow_value_error,
}
use journey_map.Json.{
  JsonObject, JsonValue, empty, field, integer, null, boolean, float, text, array, object, get?,
  get, insert, as_object, canonical, canonical_object, clone_json_object,
}
use journey_map.Json.Laws.{get?-insert, get?-insert_sorted, map_canonical}
use journey_map.Core.Entities.{get_entity}
use journey_map.Modules.Rows.{
  member_object, change_row, cell, row?, member?, cell-canonical, change_row-cell,
  member_object-eq-ok,
}
use journey_map.Modules.Inventory.{
  table_of, item_definition, sorted_items, quantity_at_least_zero, collect, owned_quantities,
  positive_quantity, amount, decrement_candidate, transfer_candidate,
}

-- The quantity that a member stands for; one that is missing is none.
abbrev pub units : Option JsonValue → ℕ
units (some (integer (pos n))) = n
units _ = 0

-- What an inventory gives an owner of an item, and what a state does.
abbrev pub held : JsonObject → String → String → ℕ
held inventory owner item_id = units (cell "owners" owner item_id inventory)

abbrev pub stock : JsonObject → String → String → ℕ
stock state owner item_id = units (
    member? item_id
      (row? (member? owner (row? (member? "owners" (row? (get? "inventory" state)))))))

pub units-canonical : (v : Option JsonValue) → units (map_canonical v) ≡ units v
unfolding canonical
units-canonical none = refl
units-canonical (some null) = refl
units-canonical (some (boolean b)) = refl
units-canonical (some (integer z)) = refl
units-canonical (some (float n)) = refl
units-canonical (some (text s)) = refl
units-canonical (some (array xs)) = refl
units-canonical (some (object o)) = refl

quantity-units : (v : JsonValue) (q : ℕ) → quantity_at_least_zero v ≡ ok q → units (some v) ≡ q
unfolding quantity_at_least_zero
quantity-units (integer (pos n)) q h = ground arith
quantity-units (integer (negsuc n)) q h = ground arith
quantity-units null q h = cc
quantity-units (boolean b) q h = cc
quantity-units (float n) q h = cc
quantity-units (text s) q h = cc
quantity-units (array xs) q h = cc
quantity-units (object o) q h = cc

cons-amount :
    (i k : String) (v : JsonValue) (q : ℕ) (rest : Dict ℕ) (row : JsonObject)
    → units (some v) ≡ q
    → amount k rest ≡ units (get? k row)
    → amount k ((i, q) ∷ rest) ≡ units (get? k (field i v row))
unfolding get? lookup
cons-amount i k v q rest row h tail = elim (Bool-cases (i == k)) [
  | inl here ↦ rw (here, amount) (sym h)
  | inr there ↦ rw (there, amount) tail
]

collect-amount :
    (state row : JsonObject) (owned : Dict ℕ) (k : String)
    → collect state row ≡ ok owned
    → amount k owned ≡ units (get? k row)
unfolding collect
collect-amount state empty owned k h = rw (← ok-injective h) (unfold get? in unfold lookup in refl)
collect-amount state (field i v row) owned k h =
    let (item, _, h₁) = >>=-eq-ok (item_definition state i) _ h in
    let (q, counted, h₂) = >>=-eq-ok (quantity_at_least_zero v) _ h₁ in
    let (rest, collected, h₃) = >>=-eq-ok (collect state row) _ h₂ in
    let tail = collect-amount state row rest k collected in
    rw (← ok-injective h₃) (cons-amount i k v q rest row (quantity-units v q counted) tail)

get?-sorted_items : (k : String) (o : JsonObject) → get? k (sorted_items o) ≡ get? k o
unfolding get? sorted_items
get?-sorted_items k empty = refl
get?-sorted_items k (field j v o) =
    rw (get?-insert_sorted j k v (sorted_items o)) (rw (get?-sorted_items k o) refl)

pub as_object-get : (k : String) (o : JsonObject) → as_object (get k o) ≡ row? (get? k o)
as_object-get k o = elim (Option-cases (get? k o)) [
  | inl missing ↦ rw (get, missing) refl
  | inr (v, found) ↦ rw (get, found) refl
]

-- The second step of `table_of`, from the object that the first one found.
as_table :
    (table : String) (found row : Option JsonObject)
    → found ≡ row
    → (elim found [ none ↦ none | some module_state ↦ as_object (get table module_state) ])
      ≡ row? (member? table row)
as_table table none row e = rw (← e) refl
as_table table (some o) row e = rw (← e) (as_object-get table o)

pub table_of-row :
    (name table : String) (state : JsonObject)
    → table_of name table state ≡ row? (member? table (row? (get? name state)))
unfolding table_of
table_of-row name table state =
    as_table table (as_object (get name state)) _ (as_object-get name state)

-- What the module reads as owned is what the state holds.
owned_quantities-amount :
    (state : JsonObject) (owner : String) (owned : Dict ℕ) (k : String)
    → owned_quantities state owner ≡ ok owned
    → amount k owned ≡ stock state owner k
unfolding owned_quantities
owned_quantities-amount state owner owned k h =
    let (e, _, h₁) =
      >>=-eq-ok
        (rethrow_value_error (validation "INVALID_INVENTORY_STATE") (get_entity state owner)) _ h in
    let (_, _, h₂) = >>=-eq-ok (or_raise e (validation "UNKNOWN_INVENTORY_OWNER")) _ h₁ in
    let (owners, found, h₃) =
      >>=-eq-ok
        (or_raise (table_of "inventory" "owners" state) (validation "INVALID_INVENTORY_STATE")) _
        h₂ in
    let (v, member, h₄) =
      >>=-eq-ok (or_raise (get? owner owners) (validation "UNKNOWN_INVENTORY_OWNER")) _ h₃ in
    let (row, is_row, h₅) =
      >>=-eq-ok (or_raise (as_object v) (validation "INVALID_INVENTORY_STATE")) _ h₄ in
    let table : row? (member? "owners" (row? (get? "inventory" state))) ≡ some owners =
      sym (table_of-row "inventory" "owners" state) ∙ or_raise-eq-ok _ _ owners found in
    rw (collect-amount state (sorted_items row) owned k h₅) (
      rw (get?-sorted_items k row)
        (rw table (rw (or_raise-eq-ok _ _ v member) (rw (or_raise-eq-ok _ _ row is_row) refl))))

same-row :
    (owner who k : String) (o : JsonObject)
    → (owner == who) ≡ true
    → cell "owners" owner k o ≡ cell "owners" who k o
same-row owner who k o h = ap (λ w. cell "owners" w k o) ((eq_iff owner who).0 h)

put-units :
    (b : Bool) (item k : String) (n : ℕ) (row : JsonObject) (other : Option JsonValue)
    → (b ≡ true → units (get? k row) ≡ units other)
    → units (if b then get? k (insert item (integer (pos n)) row) else other)
      ≡ (if b && item == k then n else units other)
put-units false item k n row other h = refl
put-units true item k n row other h =
    rw (get?-insert item k (integer (pos n)) row)
      (elim (Bool-cases (item == k)) [ inl here ↦ rw here refl | inr there ↦ rw there (h refl) ])

-- A change of one quantity is that change of what the inventory holds.
put-held :
    (owner item : String) (n : ℕ) (o p : JsonObject) (who k : String)
    → change_row "owners" owner (insert item (integer (pos n))) o ≡ ok p
    → held p who k ≡ (if owner == who && item == k then n else held o who k)
put-held owner item n o p who k h =
    let (row, before, after) =
      change_row-cell "owners" owner (insert item (integer (pos n))) o p who k h in
    rw after (
      put-units (owner == who) item k n row (cell "owners" who k o)
        (λ same. ap units (sym (before k) ∙ same-row owner who k o same)))

pub clone-canonical : (o p : JsonObject) → clone_json_object o ≡ ok p → canonical_object o ≡ p
unfolding clone_json_object
clone-canonical o p h = ground arith

-- The copy of a state's inventory holds what the state does.
copied-held :
    (state inventory candidate : JsonObject) (who k : String)
    → member_object "inventory" state ≡ ok inventory
    → clone_json_object inventory ≡ ok candidate
    → held candidate who k ≡ stock state who k
copied-held state inventory candidate who k h e =
    let copy = clone-canonical inventory candidate e in
    rw (← copy) (
      rw (cell-canonical "owners" who k inventory) (
        rw (units-canonical (cell "owners" who k inventory))
          (rw (member_object-eq-ok "inventory" state inventory h) refl)))

enough-le :
    (n q : ℕ) (u : Unit {0})
    → raise_if (ltb n q) (validation "INSUFFICIENT_QUANTITY") ≡ ok u
    → q ≤ n
enough-le n q u h = ground arith

-- A decrement takes no more than the owner has, and takes it from nobody else.
pub decrement_candidate-held :
    (state candidate : JsonObject) (owner item : String) (quantity : ℕ) (who k : String)
    → decrement_candidate state owner item quantity ≡ ok candidate
    → (quantity ≤ stock state owner item)
      × (held candidate who k ≡ (
          if owner == who && item == k
          then stock state owner item - quantity
          else stock state who k))
unfolding decrement_candidate
decrement_candidate-held state candidate owner item quantity who k h =
    let (_, _, h₁) = >>=-eq-ok (positive_quantity (integer (pos quantity))) _ h in
    let (_, _, h₂) = >>=-eq-ok (item_definition state item) _ h₁ in
    let (owned, read, h₃) = >>=-eq-ok (owned_quantities state owner) _ h₂ in
    let (_, enough, h₄) =
      >>=-eq-ok (raise_if (ltb (amount item owned) quantity) (validation "INSUFFICIENT_QUANTITY")) _
        h₃ in
    let (inventory, got, h₅) = >>=-eq-ok (member_object "inventory" state) _ h₄ in
    let (copy, cloned, h₆) = >>=-eq-ok (clone_json_object inventory) _ h₅ in
    let same = owned_quantities-amount state owner owned item read in
    (
      rw (← same) (enough-le (amount item owned) quantity _ enough),
      rw (put-held owner item (amount item owned - quantity) copy candidate who k h₆)
          (rw (copied-held state inventory copy who k got cloned) (rw same refl)),
    )

different :
    (source target : String) (u : Unit {0})
    → raise_if (source == target) (validation "SELF_TRANSFER") ≡ ok u
    → (source == target) ≡ false
different source target u h = ground arith

-- A transfer that succeeds is between two owners and takes no more than its source has. Its target
-- then has the quantity more, its source the quantity less, and what every other owner has, and
-- what anybody has of every other item, stays.
pub transfer_candidate-held :
    (state candidate : JsonObject) (source target item : String) (quantity : ℕ) (who k : String)
    → transfer_candidate state source target item quantity ≡ ok candidate
    → ((source == target) ≡ false)
      × (quantity ≤ stock state source item)
      × (held candidate who k ≡ (
          if target == who && item == k
          then stock state target item + quantity
          else if source == who && item == k
          then stock state source item - quantity
          else stock state who k))
unfolding transfer_candidate
transfer_candidate-held state candidate source target item quantity who k h =
    let (_, _, h₁) = >>=-eq-ok (positive_quantity (integer (pos quantity))) _ h in
    let (_, apart, h₂) =
      >>=-eq-ok (raise_if (source == target) (validation "SELF_TRANSFER")) _ h₁ in
    let (owned, read, h₃) = >>=-eq-ok (owned_quantities state target) _ h₂ in
    let (taken, took, h₄) = >>=-eq-ok (decrement_candidate state source item quantity) _ h₃ in
    let (enough, after) = decrement_candidate-held state taken source item quantity who k took in
    let gave = put-held target item (amount item owned + quantity) taken candidate who k h₄ in
    let same = owned_quantities-amount state target owned item read in
    (different source target _ apart, enough, rw gave (rw after (rw same refl)))
