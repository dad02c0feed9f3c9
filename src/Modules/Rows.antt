-- ===== src/Modules/Rows.antt =====
-- Tables of rows in a JSON object, as the domain modules read and write them in place.
use journey_map.Prelude.{
  String, ◌≡◌, refl, Option, none, some, ◌==◌, if◌then◌else◌, eq_refl, inl, inr, Bool-cases,
}
use journey_map.Prelude.Exec.{
  Result, ok, assertion_error, key_error, ◌>>=◌, or_raise, >>=-eq-ok, or_raise-eq-ok, ok-injective,
}
use journey_map.Json.{
  JsonObject, JsonValue, object, get?, insert, as_object, canonical, canonical_object, integer,
  null, boolean, float, text, array,
}
use journey_map.Json.Laws.{get?-insert, get?-canonical, map_canonical}

-- `v = d[k]` and `assert isinstance(v, dict)`
unfoldable pub member_object : String → JsonObject → Result JsonObject
member_object k o = do
  value ← or_raise (get? k o) key_error
  or_raise (as_object value) assertion_error

-- `rows = d[table]; row = rows[owner]`, both asserted to be dicts, and a change of `row` in place.
unfoldable pub change_row :
    String → String → (JsonObject → JsonObject) → JsonObject → Result JsonObject
unfolding member_object
change_row table owner change o = do
  rows ← member_object table o
  row ← member_object owner rows
  ok (insert table (object (insert owner (object (change row)) rows)) o)

-- The members of the object at a key, if there is one there.
abbrev pub row? : Option JsonValue → Option JsonObject
row? none = none
row? (some v) = as_object v

abbrev pub member? : String → Option JsonObject → Option JsonValue
member? k none = none
member? k (some o) = get? k o

-- `d[table][owner][k]`, if all of them are there.
abbrev pub cell : String → String → String → JsonObject → Option JsonValue
cell table owner k o = member? k (row? (member? owner (row? (get? table o))))

pub row?-canonical :
    (k : String) (v : Option JsonValue)
    → member? k (row? (map_canonical v)) ≡ map_canonical (member? k (row? v))
unfolding canonical
row?-canonical k none = refl
row?-canonical k (some (object o)) = get?-canonical k o
row?-canonical k (some null) = refl
row?-canonical k (some (boolean b)) = refl
row?-canonical k (some (integer z)) = refl
row?-canonical k (some (float n)) = refl
row?-canonical k (some (text s)) = refl
row?-canonical k (some (array xs)) = refl

-- A cell of the canonical copy is the canonical copy of the cell.
pub cell-canonical :
    (table owner k : String) (o : JsonObject)
    → cell table owner k (canonical_object o) ≡ map_canonical (cell table owner k o)
cell-canonical table owner k o = rw (get?-canonical table o) (
    rw (row?-canonical owner (get? table o))
      (row?-canonical k (member? owner (row? (get? table o)))))

pub member_object-eq-ok :
    (k : String) (o row : JsonObject) → member_object k o ≡ ok row → row? (get? k o) ≡ some row
unfolding member_object
member_object-eq-ok k o row h =
    let (value, found, h₁) = >>=-eq-ok (or_raise (get? k o) key_error) _ h in
    rw (or_raise-eq-ok (get? k o) _ value found) (or_raise-eq-ok (as_object value) _ row h₁)

pub put-cell :
    (table owner who k : String) (new rows o : JsonObject)
    → cell table who k (insert table (object (insert owner (object new) rows)) o)
      ≡ (if owner == who then get? k new else member? k (row? (get? who rows)))
put-cell table owner who k new rows o =
    rw (get?-insert table table (object (insert owner (object new) rows)) o) (
      rw (eq_refl table) (
        rw (get?-insert owner who (object new) rows) (elim (Bool-cases (owner == who)) [
          | inl here ↦ rw here refl
          | inr there ↦ rw there refl
        ])))

-- A change of a row is read there, and nowhere else in its table.
pub change_row-cell :
    (table owner : String) (change : JsonObject → JsonObject) (o p : JsonObject) (who k : String)
    → change_row table owner change o ≡ ok p
    → (row : JsonObject) × ((j : String) → cell table owner j o ≡ get? j row)
      × (cell table who k p ≡ (if owner == who then get? k (change row) else cell table who k o))
unfolding change_row
change_row-cell table owner change o p who k h =
    let (rows, got, h₁) = >>=-eq-ok (member_object table o) _ h in
    let (row, got', h₂) = >>=-eq-ok (member_object owner rows) _ h₁ in
    let in_table = member_object-eq-ok table o rows got in
    let in_rows = member_object-eq-ok owner rows row got' in
    (
      row,
      λ j. rw in_table (rw in_rows refl),
      rw (← ok-injective h₂) (rw in_table (put-cell table owner who k (change row) rows o)),
    )
