-- ===== src/Modules/Social/Contract.antt =====
-- The events that interactions commit are the events that their readers accept.
use journey_map.Prelude.{
  String, ◌≡◌, refl, ap, ◌∙◌, inl, inr, Bool, true, false, not, ◌&&◌, ◌||◌, Option, none, some,
  List, [], ◌∷◌, ◌++◌, is_empty, ◌==◌, arith, all, Bool-cases, eq_iff, some_injective,
}
use journey_map.Prelude.Exec.{ok, or_raise}
use journey_map.Json.{
  JsonObject, JsonValue, null, boolean, integer, float, text, array, object, get?, get, has, erase,
  every, is_text, canonical, canonical_object,
}
use journey_map.Json.Laws.{get?-canonical, map_canonical}
use journey_map.Json.Members.{
  and-parts, every-canonical, every-erase, every-map, has-canonical, has-erase,
}
use journey_map.Modules.Social.{required_keys, optional_keys, is_among, fits, validate_payload}

abbrev pub is_participant : String → Bool
is_participant k = k == "sender_actor_id" || k == "location_id"

-- What may stand in the payload of an interaction's event.
abbrev pub may_hold : List String → String → JsonValue → Bool
may_hold allowed k v = is_participant k || (is_among allowed k && fits k v)

-- The payload of an interaction of `sender`, with the payload of its request in it.
pub record IsInteraction (action_type sender : String) (payload : JsonObject) : Type 0 where
  pub required : List String
  pub known : required_keys action_type ≡ some required
  pub present : all (λ k. has k payload) required ≡ true
  pub held : every (may_hold (required ++ optional_keys action_type)) payload ≡ true
  pub sender_set : get? "sender_actor_id" payload ≡ some (text sender)
  pub sender_full : is_empty sender ≡ false
  pub location : String
  pub location_set : get? "location_id" payload ≡ some (text location)
  pub location_full : is_empty location ≡ false
  pub other_target : is_text (get "target_actor_id" payload) sender ≡ false

fits-canonical : (k : String) (v : JsonValue) → fits k (canonical v) ≡ fits k v
unfolding canonical
fits-canonical k null = refl
fits-canonical k (boolean b) = refl
fits-canonical k (integer z) = refl
fits-canonical k (float n) = refl
fits-canonical k (text s) = refl
fits-canonical k (array xs) = refl
fits-canonical k (object o) = refl

is_text-canonical : (v : JsonValue) (s : String) → is_text (canonical v) s ≡ is_text v s
unfolding canonical
is_text-canonical null s = refl
is_text-canonical (boolean b) s = refl
is_text-canonical (integer z) s = refl
is_text-canonical (float n) s = refl
is_text-canonical (text t) s = refl
is_text-canonical (array xs) s = refl
is_text-canonical (object o) s = refl

abbrev pub or_null : Option JsonValue → JsonValue
or_null none = null
or_null (some v) = v

or_null-canonical :
    (v : Option JsonValue) (s : String)
    → is_text (or_null (map_canonical v)) s ≡ is_text (or_null v) s
or_null-canonical none s = refl
or_null-canonical (some v) s = is_text-canonical v s

get-is_text-canonical :
    (k : String) (o : JsonObject) (s : String)
    → is_text (get k (canonical_object o)) s ≡ is_text (get k o) s
get-is_text-canonical k o s =
    ap (λ v. is_text (or_null v) s) (get?-canonical k o) ∙ or_null-canonical (get? k o) s

all-has-canonical :
    (o : JsonObject) (ks : List String)
    → all (λ k. has k o) ks ≡ true
    → all (λ k. has k (canonical_object o)) ks ≡ true
all-has-canonical o [] h = refl
all-has-canonical o (k ∷ ks) h =
    let (first_, rest) = and-parts (has k o) (all (λ k. has k o) ks) h in
    rw (has-canonical k o first_) (all-has-canonical o ks rest)

pub IsInteraction-canonical :
    (action_type sender : String) (o : JsonObject)
    → IsInteraction action_type sender o
    → IsInteraction action_type sender (canonical_object o)
unfolding canonical
IsInteraction-canonical action_type sender o i = record {
  required = i.required;
  known = i.known;
  present = all-has-canonical o i.required i.present;
  held =
      every-canonical (may_hold (i.required ++ optional_keys action_type))
        (λ k v h. rw (fits-canonical k v) h) o i.held;
  sender_set = rw (get?-canonical "sender_actor_id" o, i.sender_set) refl;
  sender_full = i.sender_full;
  location = i.location;
  location_set = rw (get?-canonical "location_id" o, i.location_set) refl;
  location_full = i.location_full;
  other_target = rw (get-is_text-canonical "target_actor_id" o sender) i.other_target;
}

-- The keys that a request must have are not those of the participants.
required_keys-plain :
    (action_type : String) (required : List String)
    → required_keys action_type ≡ some required
    → all (λ k. not (is_participant k)) required ≡ true
required_keys-plain action_type required h = elim (Bool-cases (action_type == "ASK")) [
  | inl ask ↦ rw (← some_injective (rw ask at h)) refl
  | inr no_ask ↦ elim (Bool-cases (action_type == "INFORM")) [
    | inl inform ↦ rw (← some_injective (rw (no_ask, inform) at h)) refl
    | inr no_inform ↦ elim (Bool-cases (action_type == "REQUEST")) [
      | inl request ↦ rw (← some_injective (rw (no_ask, no_inform, request) at h)) refl
      | inr no_request ↦ (let clash = rw (no_ask, no_inform, no_request) at h in cc)
    ]
  ]
]

or-skip : (a b : Bool) → a ≡ false → a || b ≡ true → b ≡ true
or-skip false b h e = e
or-skip true b h e = cc

or-skip_first : (a b c : Bool) → a ≡ false → (a || b) || c ≡ true → b || c ≡ true
or-skip_first false b c h e = e
or-skip_first true b c h e = cc

differ_sym : (s t : String) → s == t ≡ false → t == s ≡ false
differ_sym s t h = ground (arith, eq_iff s t, eq_iff t s)

all-has-erase :
    (o : JsonObject) (ks : List String)
    → all (λ k. not (is_participant k)) ks ≡ true
    → all (λ k. has k o) ks ≡ true
    → all (λ k. has k (erase "location_id" (erase "sender_actor_id" o))) ks ≡ true
all-has-erase o [] p h = refl
all-has-erase o (k ∷ ks) p h =
    let (here_, rest) = and-parts (has k o) (all (λ k. has k o) ks) h in
    let (plain, others) =
      and-parts (not (is_participant k)) (all (λ k. not (is_participant k)) ks) p in
    let not_sender : "sender_actor_id" == k ≡ false =
      ground (arith, eq_iff k "sender_actor_id", eq_iff "sender_actor_id" k) in
    let not_location : "location_id" == k ≡ false =
      ground (arith, eq_iff k "location_id", eq_iff "location_id" k) in
    rw
      (has-erase "location_id" k (erase "sender_actor_id" o) not_location
        (has-erase "sender_actor_id" k o not_sender here_))
      (all-has-erase o ks others rest)

every-participants :
    (allowed : List String) (o : JsonObject)
    → every (may_hold allowed) o ≡ true
    → every
        (λ k v. is_among allowed k && fits k v)
        (erase "location_id" (erase "sender_actor_id" o))
      ≡ true
every-participants allowed o h =
    every-erase (λ k v. is_among allowed k && fits k v)
      (λ k v. k == "location_id" || (is_among allowed k && fits k v)) "location_id"
      (λ k v other e. or-skip (k == "location_id") _ (differ_sym "location_id" k other) e)
      (erase "sender_actor_id" o)
      (every-erase (λ k v. k == "location_id" || (is_among allowed k && fits k v))
        (may_hold allowed) "sender_actor_id"
        (λ k v other e.
          or-skip_first (k == "sender_actor_id") (k == "location_id") _
            (differ_sym "sender_actor_id" k other) e)
        o h)

pub IsInteraction-payload :
    (action_type sender : String) (o : JsonObject)
    → IsInteraction action_type sender o
    → validate_payload action_type (erase "location_id" (erase "sender_actor_id" o)) ≡ ok tt
unfolding validate_payload
IsInteraction-payload action_type sender o i =
    let allowed = i.required ++ optional_keys action_type in
    let bare = erase "location_id" (erase "sender_actor_id" o) in
    let both = every-participants allowed o i.held in
    let only : every (λ k v. is_among allowed k) bare ≡ true =
      every-map (λ k v. is_among allowed k) (λ k v. is_among allowed k && fits k v)
        (λ k v h. (and-parts (is_among allowed k) (fits k v) h).0) bare both in
    let fit : every fits bare ≡ true =
      every-map fits (λ k v. is_among allowed k && fits k v)
        (λ k v h. (and-parts (is_among allowed k) (fits k v) h).1) bare both in
    let present =
      all-has-erase o i.required (required_keys-plain action_type i.required i.known) i.present in
    rw (i.known, or_raise, present, only, fit) refl
