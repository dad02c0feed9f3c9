-- ===== src/Modules/Movement/Closing.antt =====
-- Closing routes closes those, and leaves every other route.
use journey_map.Prelude.{
  String, ◌≡◌, refl, sym, ap, ◌∙◌, Bool, true, false, ◌||◌, Option, some, List, [], ◌∷◌, ◌==◌,
  if◌then◌else◌, any, inl, inr, Bool-cases, some-eq-some,
}
use journey_map.Prelude.Exec.{
  ok, value_error, >>=-eq-ok, or_raise-eq-ok, ok-injective, raise_if, or_raise,
}
use journey_map.Json.{JsonObject, JsonValue, boolean, get, insert, as_object, clone_json_object}
use journey_map.Json.Laws.{get?-insert, map_canonical}
use journey_map.Core.Modules.{sort_texts, any-sort_texts}
use journey_map.Modules.Rows.{change_row, cell, cell-canonical, change_row-cell}
use journey_map.Modules.Inventory.Transfer.{clone-canonical}
use journey_map.Modules.Movement.{close_all, close_routes, check_closure, is_nothing, repeats}

abbrev pub among : String → List String → Bool
among id = any (λ j. j == id)

-- What a movement table says of a route's passability.
abbrev pub passability : String → JsonObject → Option JsonValue
passability id movement = cell "routes" id "passable" movement

close_one :
    (id who : String) (o p : JsonObject)
    → change_row "routes" id (insert "passable" (boolean false)) o ≡ ok p
    → passability who p ≡ (if id == who then some (boolean false) else passability who o)
close_one id who o p h =
    let (row, _, after) =
      change_row-cell "routes" id (insert "passable" (boolean false)) o p who "passable" h in
    let put = get?-insert "passable" "passable" (boolean false) row in rw after (rw put refl)

either :
    (b : Bool) → (if b then some (boolean false) else some (boolean false)) ≡ some (boolean false)
either true = refl
either false = refl

close_all-passability :
    (ids : List String) (o p : JsonObject) (who : String)
    → close_all ids o ≡ ok p
    → passability who p ≡ (if among who ids then some (boolean false) else passability who o)
unfolding close_all
close_all-passability [] o p who h = rw (ok-injective h) refl
close_all-passability (id ∷ ids) o p who h =
    let (routes, _, h₁) = >>=-eq-ok (or_raise (as_object (get "routes" o)) value_error) _ h in
    let (locations, _, h₂) =
      >>=-eq-ok (or_raise (as_object (get "locations" o)) value_error) _ h₁ in
    let (_, _, h₃) = >>=-eq-ok (check_closure routes locations id) _ h₂ in
    let (changed, closed, h₄) =
      >>=-eq-ok (change_row "routes" id (insert "passable" (boolean false)) o) _ h₃ in
    let later = close_all-passability ids changed p who h₄ in
    let now = close_one id who o changed closed in
    elim (Bool-cases (id == who)) [
      | inl here ↦ rw later (rw now (rw here (either (among who ids))))
      | inr there ↦ rw later (rw now (rw there refl))
    ]

-- Where closing routes succeeds, each of the named routes is impassable in the candidate, and every
-- other route there has the passability of its record in the state's movement table.
pub close_routes-passability :
    (state movement candidate : JsonObject) (ids : List String) (who : String)
    → as_object (get "movement" state) ≡ some movement
    → close_routes state ids ≡ ok candidate
    → passability who candidate
      ≡ (if among who ids then some (boolean false) else map_canonical (passability who movement))
unfolding close_routes
close_routes-passability state movement candidate ids who m h =
    let (_, _, h₁) = >>=-eq-ok (raise_if (is_nothing ids || repeats ids) value_error) _ h in
    let (found, is_found, h₂) =
      >>=-eq-ok (or_raise (as_object (get "movement" state)) value_error) _ h₁ in
    let (copy, cloned, h₃) = >>=-eq-ok (clone_json_object found) _ h₂ in
    let (_, _, h₄) = >>=-eq-ok (or_raise (as_object (get "routes" copy)) value_error) _ h₃ in
    let (_, _, h₅) = >>=-eq-ok (or_raise (as_object (get "locations" copy)) value_error) _ h₄ in
    let same : movement ≡ found = some-eq-some (sym m ∙ or_raise-eq-ok _ _ found is_found) in
    let copied : passability who copy ≡ map_canonical (passability who movement) =
      ap (λ o. passability who o) (sym (clone-canonical found copy cloned))
      ∙ cell-canonical "routes" who "passable" found
      ∙ ap (λ o. map_canonical (passability who o)) (sym same) in
    rw (close_all-passability (sort_texts ids) copy candidate who h₅)
      (rw (any-sort_texts (λ j. j == who) ids) (rw copied refl))
