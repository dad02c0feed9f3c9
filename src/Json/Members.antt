-- ===== src/Json/Members.antt =====
-- Tests of every member of an object, through the changes of the object.
use journey_map.Prelude.{
  String, ◌≡◌, refl, inl, inr, Bool, true, false, ◌&&◌, ◌==◌, arith, Bool-cases, eq_iff, text_ltb,
}
use journey_map.Json.{
  JsonObject, JsonValue, empty, field, has, insert, insert_sorted, erase, every, canonical,
  canonical_object,
}
use journey_map.Json.Laws.{get?-insert, get?-erase, get?-canonical, map_canonical}

pub and-parts : (a b : Bool) → (a && b) ≡ true → (a ≡ true) × (b ≡ true)
and-parts true b h = (refl, h)
and-parts false b h = cc

module _ (p : String → JsonValue → Bool) where
  pub every-insert :
      (k : String) (v : JsonValue) (o : JsonObject)
      → p k v ≡ true
      → every p o ≡ true
      → every p (insert k v o) ≡ true
  unfolding every insert
  every-insert k v empty h e = rw h refl
  every-insert k v (field j w o) h e = elim (Bool-cases (j == k)) [
    | inl same ↦
        let at_j : p j v ≡ true = rw ((eq_iff j k).0 same) h in
        rw (same, at_j) ((and-parts (p j w) (every p o) e).1)
    | inr other ↦
        let (here_, there) = and-parts (p j w) (every p o) e in
        rw (other, here_) (every-insert k v o h there)
  ]

  every-insert_sorted :
      (k : String) (v : JsonValue) (o : JsonObject)
      → p k v ≡ true
      → every p o ≡ true
      → every p (insert_sorted k v o) ≡ true
  unfolding every insert_sorted
  every-insert_sorted k v empty h e = rw h refl
  every-insert_sorted k v (field j w o) h e = elim (Bool-cases (text_ltb j k)) [
    | inl less ↦
        let (here_, there) = and-parts (p j w) (every p o) e in
        rw (less, here_) (every-insert_sorted k v o h there)
    | inr more ↦ rw (more, h) e
  ]

  pub every-canonical :
      ((k : String) (v : JsonValue) → p k v ≡ true → p k (canonical v) ≡ true)
      → (o : JsonObject) → every p o ≡ true
      → every p (canonical_object o) ≡ true
  unfolding every canonical_object
  every-canonical keeps empty e = refl
  every-canonical keeps (field k v o) e =
      let (here_, there) = and-parts (p k v) (every p o) e in
      every-insert_sorted k (canonical v) (canonical_object o) (keeps k v here_)
        (every-canonical keeps o there)

  -- The members that are left pass what those that are not erased pass.
  pub every-erase :
      (q : String → JsonValue → Bool) (k : String)
      → ((j : String) (v : JsonValue) → k == j ≡ false → q j v ≡ true → p j v ≡ true)
      → (o : JsonObject) → every q o ≡ true
      → every p (erase k o) ≡ true
  unfolding every erase
  every-erase q k keeps empty e = refl
  every-erase q k keeps (field j v o) e =
      let (here_, there) = and-parts (q j v) (every q o) e in
      let rest = every-erase q k keeps o there in
      elim (Bool-cases (j == k)) [
        | inl same ↦ rw same rest
        | inr other ↦
            let apart : k == j ≡ false = ground (arith, eq_iff j k, eq_iff k j) in
            rw (other, keeps j v apart here_) rest
      ]

  pub every-map :
      (q : String → JsonValue → Bool)
      → ((k : String) (v : JsonValue) → q k v ≡ true → p k v ≡ true)
      → (o : JsonObject) → every q o ≡ true
      → every p o ≡ true
  unfolding every
  every-map q implies empty e = refl
  every-map q implies (field k v o) e =
      let (here_, there) = and-parts (q k v) (every q o) e in
      rw (implies k v here_) (every-map q implies o there)

pub every-both :
    (p q : String → JsonValue → Bool) (o : JsonObject)
    → every p o ≡ true
    → every q o ≡ true
    → every (λ k v. p k v && q k v) o ≡ true
unfolding every
every-both p q empty h e = refl
every-both p q (field k v o) h e =
    let (a, b) = and-parts (p k v) (every p o) h in
    let (c, d) = and-parts (q k v) (every q o) e in rw (a, c) (every-both p q o b d)

-- Which keys an object has, after a change of it.
pub has-canonical :
    (k : String) (o : JsonObject) → has k o ≡ true → has k (canonical_object o) ≡ true
has-canonical k o h = ground (arith, get?-canonical k o, map_canonical)

pub has-insert :
    (j k : String) (v : JsonValue) (o : JsonObject) → has k o ≡ true → has k (insert j v o) ≡ true
has-insert j k v o h = ground (arith, get?-insert j k v o)

pub has-erase :
    (j k : String) (o : JsonObject) → j == k ≡ false → has k o ≡ true → has k (erase j o) ≡ true
has-erase j k o other h = ground (arith, get?-erase j k o)
