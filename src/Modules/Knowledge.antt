-- ===== src/Modules/Knowledge.antt =====
-- modules/knowledge/records.py: what actors know, in records that are never rewritten.
pub mod Chains
pub mod Ledgers
pub mod Views
pub mod Projection
use journey_map.Prelude.{
  ℕ, zero, suc, String, Bool, true, false, not, ◌&&◌, ◌||◌, Option, none, some, List, [], ◌∷◌, ◌++◌,
  is_empty, ◌==◌, ◌==ℕ◌, ltb, text_ltb, if◌then◌else◌, any, keep, first, length,
}
use journey_map.Prelude.Int.{ℤ, pos, is_nonpositive}
use journey_map.Prelude.Exec.{
  Result, ok, err, value_error, runtime_error, ◌>>=◌, ◌>>◌, raise_if, or_raise,
}
use journey_map.Json.{JsonObject, JsonValue, empty, field, text, integer, null, clone_json_value}

-- A negative `learned_at` has no value here: the constructor refuses one.
pub record KnowledgeRecord : Type 0 where
  pub knowledge_record_id : String
  pub run_id : String
  pub actor_id : String
  pub subject_ref : String
  pub predicate : String
  pub value : JsonValue
  pub source_kind : String
  pub source_ref : String
  pub learned_at : ℕ
  pub supersedes_id : Option String
  pub schema_version : ℤ

abbrev pub is_missing : Option String → Bool
is_missing none = false
is_missing (some s) = is_empty s

abbrev pub is_unnamed : KnowledgeRecord → Bool
is_unnamed r =
    is_empty r.knowledge_record_id
    || is_empty r.run_id
    || is_empty r.actor_id
    || is_empty r.subject_ref
    || is_empty r.predicate
    || is_empty r.source_kind
    || is_empty r.source_ref

-- `KnowledgeRecord(...)` with its `__post_init__`, and `detached`, which constructs it again.
unfoldable pub make_record : KnowledgeRecord → Result KnowledgeRecord
make_record r = do
  raise_if (is_unnamed r) value_error
  raise_if (is_nonpositive r.schema_version) value_error
  raise_if (is_missing r.supersedes_id) value_error
  copied ← clone_json_value r.value
  ok (record r { value = copied })

unfoldable pub to_json : KnowledgeRecord → Result JsonObject
to_json r = do
  copied ← clone_json_value r.value
  ok (
      field "knowledge_record_id" (text r.knowledge_record_id) (
        field "run_id" (text r.run_id) (
          field "actor_id" (text r.actor_id) (
            field "subject_ref" (text r.subject_ref) (
              field "predicate" (text r.predicate) (
                field "value" copied (
                  field "source_kind" (text r.source_kind) (
                    field "source_ref" (text r.source_ref) (
                      field "learned_at" (integer (pos r.learned_at)) (
                        field "supersedes_id"
                          (elim r.supersedes_id [ none ↦ null | some s ↦ text s ])
                          (field "schema_version" (integer r.schema_version) empty)))))))))))

-- `tuple(record.detached() for record in records)`
unfoldable pub detached_records : List KnowledgeRecord → Result (List KnowledgeRecord)
unfolding make_record
detached_records [] = ok []
detached_records (r ∷ rs) = do copy ← make_record r; rest ← detached_records rs; ok (copy ∷ rest)

abbrev pub same_scope : KnowledgeRecord → KnowledgeRecord → Bool
same_scope r s = r.run_id == s.run_id && r.actor_id == s.actor_id

-- `len({(run_id, actor_id) …}) > 1`: some record differs from the first.
abbrev pub has_two_scopes : List KnowledgeRecord → Bool
has_two_scopes [] = false
has_two_scopes (r ∷ rs) = any (λ s. not (same_scope r s)) rs

pub record ActorKnowledgeView : Type 0 where
  pub records : List KnowledgeRecord

unfoldable pub make_view : List KnowledgeRecord → Result ActorKnowledgeView
unfolding detached_records
make_view records = do
  raise_if (has_two_scopes records) value_error
  copied ← detached_records records
  ok (record { records = copied })

-- `ActorKnowledgeView.history` and `query`
unfoldable pub view_history : ActorKnowledgeView → Result (List KnowledgeRecord)
unfolding detached_records
view_history view = detached_records view.records

unfoldable pub query : String → String → ActorKnowledgeView → Result (List KnowledgeRecord)
unfolding detached_records
query subject_ref predicate view =
    detached_records
      (keep (λ r. r.subject_ref == subject_ref && r.predicate == predicate) view.records)

pub record KnowledgeLedger : Type 0 where
  pub run_id : String
  pub initial_time : ℕ
  pub records : List KnowledgeRecord

abbrev pub has_id : String → KnowledgeRecord → Bool
has_id id r = r.knowledge_record_id == id

-- `by_id.get(id)`, where the identities differ.
abbrev pub by_id : String → List KnowledgeRecord → Option KnowledgeRecord
by_id id = first (has_id id)

-- The first loop of the constructor, with the records that it has seen.
unfoldable pub check_scope :
    String → ℕ → List KnowledgeRecord → List KnowledgeRecord → Result (Unit {0})
check_scope run_id time seen [] = ok tt
check_scope run_id time seen (r ∷ rs) = do
  raise_if (not (r.run_id == run_id) || ltb time r.learned_at) value_error
  raise_if (any (has_id r.knowledge_record_id) seen) value_error
  check_scope run_id time (r ∷ seen) rs

-- What a record that is superseded must agree on, and not be later.
abbrev pub may_supersede : KnowledgeRecord → KnowledgeRecord → Bool
may_supersede previous r =
    (previous.actor_id == r.actor_id && previous.subject_ref == r.subject_ref)
    && (previous.predicate == r.predicate && not (ltb r.learned_at previous.learned_at))

unfoldable pub check_previous : List KnowledgeRecord → KnowledgeRecord → Result (Unit {0})
check_previous all r = elim r.supersedes_id [
  | none ↦ ok tt
  | some id ↦ or_raise (by_id id all) value_error >>= λ previous.
      raise_if (not (may_supersede previous r)) value_error
]

-- One round of the `while` loop: the identity that the superseded record supersedes.
unfoldable pub next_id : List KnowledgeRecord → List String → String → Result (Option String)
next_id all seen id = do
  raise_if (any (λ j. j == id) seen) value_error
  previous ← or_raise (by_id id all) value_error
  ok previous.supersedes_id

abbrev pub continue_walk :
    (Option String → Option (Result (Unit {0})))
    → Result (Option String)
    → Option (Result (Unit {0}))
continue_walk rest (err e) = some (err e)
continue_walk rest (ok next) = rest next

-- The `while` loop, with the identities that it has seen; `none` is out of fuel.
unfoldable pub walk :
    ℕ → List KnowledgeRecord → List String → Option String → Option (Result (Unit {0}))
unfolding next_id
walk fuel all seen none = some (ok tt)
walk zero all seen (some id) = none
walk (suc fuel) all seen (some id) = continue_walk (walk fuel all (id ∷ seen)) (next_id all seen id)

-- A walk meets each record once at most, so one round more than there are records is enough.
unfoldable pub check_chain : List KnowledgeRecord → KnowledgeRecord → Result (Unit {0})
unfolding walk
check_chain all r =
    elim (walk (suc (length all)) all (r.knowledge_record_id ∷ []) r.supersedes_id) [
      | none ↦ err runtime_error
      | some ended ↦ ended
    ]

-- The second loop of the constructor.
unfoldable pub check_supersession : List KnowledgeRecord → List KnowledgeRecord → Result (Unit {0})
unfolding check_previous check_chain
check_supersession all [] = ok tt
check_supersession all (r ∷ rs) = do
  check_previous all r
  check_chain all r
  check_supersession all rs

-- The order by the time of learning and the identity.
abbrev pub learned_before : KnowledgeRecord → KnowledgeRecord → Bool
learned_before a b =
    ltb a.learned_at b.learned_at
    || a.learned_at ==ℕ b.learned_at && text_ltb a.knowledge_record_id b.knowledge_record_id

unfoldable pub insert_learned : KnowledgeRecord → List KnowledgeRecord → List KnowledgeRecord
insert_learned r [] = r ∷ []
insert_learned r (s ∷ ss) =
    let rest = insert_learned r ss in if learned_before s r then s ∷ rest else r ∷ s ∷ ss

unfoldable pub sort_learned : List KnowledgeRecord → List KnowledgeRecord
unfolding insert_learned
sort_learned [] = []
sort_learned (r ∷ rs) = insert_learned r (sort_learned rs)

-- `KnowledgeLedger(run_id, initial_time, records)`
unfoldable pub make_ledger : String → ℕ → List KnowledgeRecord → Result KnowledgeLedger
unfolding detached_records check_scope check_supersession sort_learned
make_ledger run_id initial_time records = do
  raise_if (is_empty run_id) value_error
  copied ← detached_records records
  check_scope run_id initial_time [] copied
  check_supersession copied copied
  ok (record { run_id = run_id; initial_time = initial_time; records = sort_learned copied })

unfoldable pub for_actor : String → KnowledgeLedger → Result ActorKnowledgeView
unfolding make_view
for_actor actor_id ledger = make_view (keep (λ r. r.actor_id == actor_id) ledger.records)

unfoldable pub history : KnowledgeLedger → Result (List KnowledgeRecord)
unfolding detached_records
history ledger = detached_records ledger.records
