-- ===== src/Application/Observations.antt =====
-- application/observations.py: the assembly of observations, and their append-only history.
pub mod History
pub mod Sequence
use journey_map.Prelude.{
  ℕ, ◌+◌, String, Bool, true, false, not, ◌||◌, ◌&&◌, Option, none, some, List, [], ◌∷◌, ◌++◌,
  is_empty, ◌==◌, ltb, text_ltb, length, any, if◌then◌else◌,
}
use journey_map.Prelude.Int.{ℤ, pos, ltb_ℤ, eqb_ℤ, is_nonpositive, pos_part}
use journey_map.Prelude.Exec.{
  Result, ok, err, value_error, runtime_error, key_error, ◌>>=◌, ◌>>◌, raise_if, or_raise,
}
use journey_map.Json.{
  JsonObject, JsonValue, JsonArray, nil, cons, array, object, text, empty, field, get?, get,
  clone_json_object,
}
use journey_map.Core.Observations.{PerceptionContext, detached}

-- `ObservationContributor`
abbrev pub ObservationContributor : Type 0
ObservationContributor = PerceptionContext → Result JsonObject

pub record Registration : Type 0 where
  pub priority : ℤ
  pub module_id : String
  pub contributor_id : String
  pub contributor : ObservationContributor

-- The items of `_contributors`, in the order of their insertion.
pub record ObservationPipeline : Type 0 where
  pub max_content_bytes : ℕ
  pub contributors : List Registration

unfoldable pub make_pipeline : ℤ → Result ObservationPipeline
make_pipeline max_content_bytes = do
  raise_if (is_nonpositive max_content_bytes) value_error
  ok (record { max_content_bytes = pos_part max_content_bytes; contributors = [] })

abbrev pub same_identity : Registration → Registration → Bool
same_identity a b = a.module_id == b.module_id && a.contributor_id == b.contributor_id

unfoldable pub register : Registration → ObservationPipeline → Result ObservationPipeline
register r pipeline = do
  raise_if (is_empty r.module_id || is_empty r.contributor_id) value_error
  raise_if (any (λ e. same_identity e r) pipeline.contributors) value_error
  ok (record pipeline { contributors = pipeline.contributors ++ r ∷ [] })

-- Python's `<` on the keys.
abbrev pub comes_before : Registration → Registration → Bool
comes_before a b =
    ltb_ℤ a.priority b.priority
    || eqb_ℤ a.priority b.priority
      && (text_ltb a.module_id b.module_id
          || a.module_id == b.module_id && text_ltb a.contributor_id b.contributor_id)

unfoldable pub insert_entry : Registration → List Registration → List Registration
insert_entry r [] = r ∷ []
insert_entry r (s ∷ ss) =
    let rest = insert_entry r ss in if comes_before s r then s ∷ rest else r ∷ s ∷ ss

unfoldable pub sort_entries : List Registration → List Registration
unfolding insert_entry
sort_entries [] = []
sort_entries (r ∷ rs) = insert_entry r (sort_entries rs)

-- The loop over the contributors.
unfoldable pub assemble_sections : PerceptionContext → List Registration → Result JsonArray
assemble_sections safe [] = ok nil
assemble_sections safe (r ∷ rs) = do
  copy ← detached safe
  output ← r.contributor copy
  content ← clone_json_object output
  rest ← assemble_sections safe rs
  ok (
      cons
        (object (
          field "module_id" (text r.module_id) (
            field "contributor_id" (text r.contributor_id)
              (field "content" (object content) empty))))
        rest)

-- `canonical_bytes` is the length of the UTF-8 encoding of the canonical text of a value.
module _ (canonical_bytes : JsonObject → ℕ) where
  unfoldable pub assemble : PerceptionContext → ObservationPipeline → Result JsonObject
  unfolding sort_entries assemble_sections
  assemble context pipeline = do
    safe ← detached context
    sections ← assemble_sections safe (sort_entries pipeline.contributors)
    raise_if
        (ltb pipeline.max_content_bytes (canonical_bytes (field "sections" (array sections) empty)))
        value_error
    ok (field "sections" (array sections) empty)

-- `contribute_self` and `contribute_last_receipt`
unfoldable pub contribute_self : ObservationContributor
contribute_self context = do
  own ← or_raise (get? "self" context.perceived) key_error
  ok (field "self" own empty)

unfoldable pub contribute_last_receipt : ObservationContributor
contribute_last_receipt context =
    ok (field "last_action" (get "last_action" context.perceived) empty)
