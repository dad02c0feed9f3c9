-- ===== src/Json/Laws.antt =====
-- How reading commutes with the writes and copies of JSON objects.
use journey_map.Prelude.{
  String, ◌≡◌, refl, Bool, true, false, Option, none, some, arith, eq_iff, ◌==◌, if◌then◌else◌,
  text_ltb_irrefl, eq_refl,
}
use journey_map.Prelude.Int.{ℤ, eqb_ℤ}
use journey_map.Prelude.{◌&&◌, Bool-cases, inl, inr, text_ltb}
use journey_map.Json.{
  is_canonical, is_canonical_array, is_canonical_object, canonical_array, JsonValue, JsonArray,
  JsonObject, null, boolean, integer, float, text, array, object, nil, cons, empty, field, get?,
  insert, erase, insert_sorted, canonical, canonical_object, same_value, same_array, same_object,
  same_boolean,
}

pub get?-insert :
    (k j : String) (v : JsonValue) (o : JsonObject)
    → get? j (insert k v o) ≡ (if k == j then some v else get? j o)
unfolding get? insert
get?-insert k j v empty = refl
get?-insert k j v (field i w o) =
    ground (arith, eq_iff k j, eq_iff i k, eq_iff i j, get?-insert k j v o)

pub get?-erase :
    (k j : String) (o : JsonObject) → get? j (erase k o) ≡ (if k == j then none else get? j o)
unfolding get? erase
get?-erase k j empty = ground arith
get?-erase k j (field i w o) = ground (arith, eq_iff k j, eq_iff i k, eq_iff i j, get?-erase k j o)

pub get?-insert_sorted :
    (k j : String) (v : JsonValue) (o : JsonObject)
    → get? j (insert_sorted k v o) ≡ (if k == j then some v else get? j o)
unfolding get? insert_sorted
get?-insert_sorted k j v empty = refl
get?-insert_sorted k j v (field i w o) =
    ground
      (arith, eq_iff k j, eq_iff i k, eq_iff i j, get?-insert_sorted k j v o, text_ltb_irrefl k)

abbrev pub map_canonical : Option JsonValue → Option JsonValue
map_canonical none = none
map_canonical (some v) = some (canonical v)

-- Reading a member of the canonical copy is the canonical copy of the member.
pub get?-canonical :
    (k : String) (o : JsonObject) → get? k (canonical_object o) ≡ map_canonical (get? k o)
unfolding get? canonical_object
get?-canonical k empty = refl
get?-canonical k (field j v o) =
    ground (arith, get?-insert_sorted j k (canonical v) (canonical_object o), get?-canonical k o)

eqb_ℤ_refl : (z : ℤ) → eqb_ℤ z z ≡ true
eqb_ℤ_refl z = ground arith

same_boolean_refl : (b : Bool) → same_boolean b b ≡ true
same_boolean_refl true = refl
same_boolean_refl false = refl

mutual
  unfolding same_value

  value_refl : (v : JsonValue) → same_value v v ≡ true
  value_refl null = refl
  value_refl (boolean b) = same_boolean_refl b
  value_refl (integer z) = eqb_ℤ_refl z
  value_refl (float n) = ground arith
  value_refl (text s) = eq_refl s
  value_refl (array xs) = array_refl xs
  value_refl (object o) = object_refl o

  array_refl : (xs : JsonArray) → same_array xs xs ≡ true
  array_refl nil = refl
  array_refl (cons v xs) = rw (value_refl v) (array_refl xs)

  object_refl : (o : JsonObject) → same_object o o ≡ true
  object_refl empty = refl
  object_refl (field k v o) = rw (eq_refl k, value_refl v) (object_refl o)

pub same_object_refl : (o : JsonObject) → same_object o o ≡ true
same_object_refl o = object_refl o

both : (a b : Bool) → (a && b) ≡ true → (a ≡ true) × (b ≡ true)
both true b h = (refl, h)
both false b h = cc

is_canonical-insert_sorted :
    (k : String) (v : JsonValue) (o : JsonObject)
    → is_canonical v ≡ true
    → is_canonical_object o ≡ true
    → is_canonical_object (insert_sorted k v o) ≡ true
unfolding insert_sorted is_canonical_object
is_canonical-insert_sorted k v empty h e = rw h refl
is_canonical-insert_sorted k v (field j w o) h e =
    let head : is_canonical w ≡ true = ground arith in
    let tail : is_canonical_object o ≡ true = ground arith in
    elim (Bool-cases (text_ltb j k)) [
      | inl before ↦ rw before (rw head (is_canonical-insert_sorted k v o h tail))
      | inr after ↦ rw after (rw h e)
    ]

mutual
  unfolding is_canonical canonical

  -- The canonical copy of a canonical value is canonical.
  pub canonical-IsCanonical :
      (v : JsonValue) → is_canonical v ≡ true → is_canonical (canonical v) ≡ true
  canonical-IsCanonical null h = refl
  canonical-IsCanonical (boolean b) h = refl
  canonical-IsCanonical (integer z) h = refl
  canonical-IsCanonical (float n) h = h
  canonical-IsCanonical (text s) h = refl
  canonical-IsCanonical (array xs) h = canonical_array-IsCanonical xs h
  canonical-IsCanonical (object o) h = canonical_object-IsCanonical o h

  canonical_array-IsCanonical :
      (xs : JsonArray)
      → is_canonical_array xs ≡ true
      → is_canonical_array (canonical_array xs) ≡ true
  canonical_array-IsCanonical nil h = refl
  canonical_array-IsCanonical (cons v xs) h =
      let (a, b) = both (is_canonical v) (is_canonical_array xs) h in
      rw (canonical-IsCanonical v a) (canonical_array-IsCanonical xs b)

  pub canonical_object-IsCanonical :
      (o : JsonObject)
      → is_canonical_object o ≡ true
      → is_canonical_object (canonical_object o) ≡ true
  canonical_object-IsCanonical empty h = refl
  canonical_object-IsCanonical (field k v o) h =
      let (a, b) = both (is_canonical v) (is_canonical_object o) h in
      is_canonical-insert_sorted k (canonical v) (canonical_object o) (canonical-IsCanonical v a)
        (canonical_object-IsCanonical o b)
