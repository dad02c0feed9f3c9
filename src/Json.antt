-- ===== src/Json.antt =====
-- core/canonical.py: JSON values, and the copies that the program takes of them.
pub mod Laws
pub mod Members
use journey_map.Prelude.{
  ℕ, ◌/◌, ◌%◌, ◌^◌, String, Bool, true, false, not, ◌&&◌, ◌||◌, Option, none, some, List, [], ◌∷◌,
  ◌==◌, ◌==ℕ◌, if◌then◌else◌, text_ltb, any, all,
}
use journey_map.Prelude.Int.{ℤ, eqb_ℤ}
use journey_map.Prelude.Exec.{Result, ok, err, canonical_value}

-- A float is its IEEE 754 bit pattern; the members of an object stand in insertion order.
mutual
  pub data JsonValue : Type 0 where
    null : JsonValue
    boolean : Bool → JsonValue
    integer : ℤ → JsonValue
    float : ℕ → JsonValue
    text : String → JsonValue
    array : JsonArray → JsonValue
    object : JsonObject → JsonValue

  pub data JsonArray : Type 0 where
    nil : JsonArray
    cons : JsonValue → JsonArray → JsonArray

  pub data JsonObject : Type 0 where
    empty : JsonObject
    field : String → JsonValue → JsonObject → JsonObject

-- `d[k]`, with `none` for a missing key.
unfoldable pub get? : String → JsonObject → Option JsonValue
get? k empty = none
get? k (field j v o) = if j == k then some v else get? k o

-- `d.get(k)`: Python's `None` is JSON's `null`.
abbrev pub get : String → JsonObject → JsonValue
get k o = elim (get? k o) [ none ↦ null | some v ↦ v ]

-- `k in d`
abbrev pub has : String → JsonObject → Bool
has k o = elim (get? k o) [ none ↦ false | some _ ↦ true ]

-- `d[k] = v`
unfoldable pub insert : String → JsonValue → JsonObject → JsonObject
insert k v empty = field k v empty
insert k v (field j w o) = if j == k then field j v o else field j w (insert k v o)

-- `d.pop(k, None)`
unfoldable pub erase : String → JsonObject → JsonObject
erase k empty = empty
erase k (field j w o) = let rest = erase k o in if j == k then rest else field j w rest

unfoldable pub keys : JsonObject → List String
keys empty = []
keys (field k v o) = k ∷ keys o

-- `all(p(key, value) for key, value in d.items())`
unfoldable pub every : (String → JsonValue → Bool) → JsonObject → Bool
every p empty = true
every p (field k v o) = p k v && every p o

-- `set(d) == {…}`
unfoldable pub has_exactly : List String → JsonObject → Bool
has_exactly ks o = all (λ k. has k o) ks && all (λ j. any (λ k. k == j) ks) (keys o)

-- `isinstance(value, dict)` and `isinstance(value, str)`, with the value.
abbrev pub as_object : JsonValue → Option JsonObject
as_object (object o) = some o
as_object _ = none

abbrev pub as_text : JsonValue → Option String
as_text (text s) = some s
as_text _ = none

-- `isinstance(value, int) and not isinstance(value, bool)`: the test `type(value) is int`.
abbrev pub as_integer : JsonValue → Option ℤ
as_integer (integer z) = some z
as_integer _ = none

-- `isinstance(value, int)`, which holds of `True` and `False` too.
abbrev pub is_int : JsonValue → Bool
is_int (integer z) = true
is_int (boolean b) = true
is_int _ = false

abbrev pub as_boolean : JsonValue → Option Bool
as_boolean (boolean b) = some b
as_boolean _ = none

-- `value == "…"`
abbrev pub is_text : JsonValue → String → Bool
is_text (text s) t = s == t
is_text _ t = false

abbrev pub same_boolean : Bool → Bool → Bool
same_boolean true b = b
same_boolean false b = not b

-- `math.isfinite`: the exponent bits are not all ones.
pub isfinite : ℕ → Bool
isfinite bits = not ((bits / 2 ^ 52) % 2 ^ 11 ==ℕ 2047)

-- `_validate_json_value`, which raises where this is false.
unfoldable mutual
  unfolding isfinite

  pub is_canonical : JsonValue → Bool
  is_canonical null = true
  is_canonical (boolean b) = true
  is_canonical (integer z) = true
  is_canonical (float bits) = isfinite bits
  is_canonical (text s) = true
  is_canonical (array xs) = is_canonical_array xs
  is_canonical (object o) = is_canonical_object o

  pub is_canonical_array : JsonArray → Bool
  is_canonical_array nil = true
  is_canonical_array (cons v xs) = is_canonical v && is_canonical_array xs

  pub is_canonical_object : JsonObject → Bool
  is_canonical_object empty = true
  is_canonical_object (field k v o) = is_canonical v && is_canonical_object o

-- A member goes before the first key that is not smaller.
unfoldable pub insert_sorted : String → JsonValue → JsonObject → JsonObject
insert_sorted k v empty = field k v empty
insert_sorted k v (field j w o) =
    let rest = insert_sorted k v o in
    if text_ltb j k then field j w rest else field k v (field j w o)

-- What `json.loads(json.dumps(value, sort_keys=True))` gives back: the value with every object's
-- members in the order of their keys.
unfoldable mutual
  unfolding insert_sorted

  pub canonical : JsonValue → JsonValue
  canonical null = null
  canonical (boolean b) = boolean b
  canonical (integer z) = integer z
  canonical (float bits) = float bits
  canonical (text s) = text s
  canonical (array xs) = array (canonical_array xs)
  canonical (object o) = object (canonical_object o)

  pub canonical_array : JsonArray → JsonArray
  canonical_array nil = nil
  canonical_array (cons v xs) = cons (canonical v) (canonical_array xs)

  pub canonical_object : JsonObject → JsonObject
  canonical_object empty = empty
  canonical_object (field k v o) = insert_sorted k (canonical v) (canonical_object o)

-- Equality of two JSON values that are both canonical, member by member.
unfoldable mutual
  pub same_value : JsonValue → JsonValue → Bool
  same_value null null = true
  same_value (boolean a) (boolean b) = same_boolean a b
  same_value (integer a) (integer b) = eqb_ℤ a b
  same_value (float a) (float b) = a ==ℕ b
  same_value (text a) (text b) = a == b
  same_value (array a) (array b) = same_array a b
  same_value (object a) (object b) = same_object a b
  same_value _ _ = false

  pub same_array : JsonArray → JsonArray → Bool
  same_array nil nil = true
  same_array (cons v xs) (cons w ys) = same_value v w && same_array xs ys
  same_array _ _ = false

  pub same_object : JsonObject → JsonObject → Bool
  same_object empty empty = true
  same_object (field k v o) (field j w p) = k == j && (same_value v w && same_object o p)
  same_object _ _ = false

unfoldable pub clone_json_value : JsonValue → Result JsonValue
clone_json_value v = if is_canonical v then ok (canonical v) else err canonical_value

unfoldable pub clone_json_object : JsonObject → Result JsonObject
clone_json_object o = if is_canonical_object o then ok (canonical_object o) else err canonical_value

-- The digest of canonical state: SHA-256 of the canonical text, a function of the canonical form.
module _ (sha256 : JsonObject → String) where
  unfoldable pub state_digest : JsonObject → Result String
  state_digest o =
      if is_canonical_object o then ok (sha256 (canonical_object o)) else err canonical_value
