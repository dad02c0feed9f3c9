-- ===== src/Modules/Knowledge/Ledgers.antt =====
-- What holds of a ledger that was constructed.
use mathlib.Core.List.{Memᴰ}
use mathlib.Core.List.Memᴰ
use journey_map.Prelude.{
  ℕ, ◌≤◌, String, ◌≡◌, refl, sym, inl, inr, Bool, true, false, not, ◌||◌, Option, none, some, List,
  [], ◌∷◌, is_empty, ◌==◌, ltb, arith, any, All, All-map, Bool-cases, eq_iff,
}
use journey_map.Prelude.Exec.{ok, value_error, >>=-eq-ok, ok-injective, raise_if}
use journey_map.Prelude.Int.{is_nonpositive}
use journey_map.Json.{JsonValue, clone_json_value, is_canonical, canonical}
use journey_map.Json.Laws.{canonical-IsCanonical}
use journey_map.Modules.Knowledge.{
  KnowledgeRecord, KnowledgeLedger, make_record, detached_records, has_id, check_scope,
  check_previous, check_chain, check_supersession, insert_learned, sort_learned, learned_before,
  make_ledger, is_missing, is_unnamed,
}
use journey_map.Modules.Knowledge.Chains.{Ends, here, after, check_chain-Ends}

-- A record that the constructor gave, which it gives again.
abbrev pub IsMade : KnowledgeRecord → Type 0
IsMade r = (copy : KnowledgeRecord) × (make_record r ≡ ok copy)

-- A record of the run that was learned by `time`.
abbrev pub InScope : String → ℕ → KnowledgeRecord → Type 0
InScope run_id time r = (r.run_id ≡ run_id) × (r.learned_at ≤ time)

abbrev pub Differ : KnowledgeRecord → KnowledgeRecord → Type 0
Differ r s = (r.knowledge_record_id == s.knowledge_record_id) ≡ false

-- No two records have one identity.
abbrev pub IsDistinct : List KnowledgeRecord → Type 0
IsDistinct [] = Unit
IsDistinct (r ∷ rs) = All (Differ r) rs × IsDistinct rs

pub record IsLedger (ledger : KnowledgeLedger) : Type 0 where
  pub made : All IsMade ledger.records
  pub scope : All (InScope ledger.run_id ledger.initial_time) ledger.records
  pub distinct : IsDistinct ledger.records
  pub ends : All (λ (r : KnowledgeRecord). Ends ledger.records r.supersedes_id) ledger.records

Differ-sym : (r s : KnowledgeRecord) → Differ r s → Differ s r
Differ-sym r s h = ground (
  arith,
  eq_iff r.knowledge_record_id s.knowledge_record_id,
  eq_iff s.knowledge_record_id r.knowledge_record_id,
)

module _ (P : KnowledgeRecord → Type 0) where
  All-insert_learned :
      (r : KnowledgeRecord) (rs : List KnowledgeRecord)
      → P r
      → All P rs
      → All P (insert_learned r rs)
  unfolding insert_learned
  All-insert_learned r [] p h = (p, tt)
  All-insert_learned r (s ∷ rs) p h = elim (Bool-cases (learned_before s r)) [
    | inl less ↦ rw less (h.0, All-insert_learned r rs p h.1)
    | inr more ↦ rw more (p, h)
  ]

  pub All-sort_learned : (rs : List KnowledgeRecord) → All P rs → All P (sort_learned rs)
  unfolding sort_learned
  All-sort_learned [] h = tt
  All-sort_learned (r ∷ rs) h = All-insert_learned r (sort_learned rs) h.0 (All-sort_learned rs h.1)

insert_learned-IsDistinct :
    (r : KnowledgeRecord) (rs : List KnowledgeRecord)
    → All (Differ r) rs
    → IsDistinct rs
    → IsDistinct (insert_learned r rs)
unfolding insert_learned
insert_learned-IsDistinct r [] h d = (tt, tt)
insert_learned-IsDistinct r (s ∷ rs) h d = elim (Bool-cases (learned_before s r)) [
  | inl less ↦ rw less (
    All-insert_learned (Differ s) r rs (Differ-sym r s h.0) d.0,
    insert_learned-IsDistinct r rs h.1 d.1,
  )
  | inr more ↦ rw more (h, d)
]

sort_learned-IsDistinct : (rs : List KnowledgeRecord) → IsDistinct rs → IsDistinct (sort_learned rs)
unfolding sort_learned
sort_learned-IsDistinct [] d = tt
sort_learned-IsDistinct (r ∷ rs) d =
    insert_learned-IsDistinct r (sort_learned rs) (All-sort_learned (Differ r) rs d.0)
      (sort_learned-IsDistinct rs d.1)

-- Sorting keeps every record.
insert_learned-head :
    (r : KnowledgeRecord) (rs : List KnowledgeRecord) → Memᴰ r (insert_learned r rs)
unfolding insert_learned
insert_learned-head r [] = Memᴰ.head refl
insert_learned-head r (s ∷ rs) = elim (Bool-cases (learned_before s r)) [
  | inl less ↦ rw less (Memᴰ.tail (insert_learned-head r rs))
  | inr more ↦ rw more (Memᴰ.head refl)
]

insert_learned-tail :
    (r a : KnowledgeRecord) (rs : List KnowledgeRecord) → Memᴰ a rs → Memᴰ a (insert_learned r rs)
unfolding insert_learned
insert_learned-tail r a [] m = elim m [ ]
insert_learned-tail r a (s ∷ rs) m = elim (Bool-cases (learned_before s r)) [
  | inr more ↦ rw more (Memᴰ.tail m)
  | inl less ↦ rw less (elim (Memᴰ.cases_cons m) [
    | inl same ↦ Memᴰ.head same
    | inr later ↦ Memᴰ.tail (insert_learned-tail r a rs later)
  ])
]

Memᴰ-sort_learned :
    (a : KnowledgeRecord) (rs : List KnowledgeRecord) → Memᴰ a rs → Memᴰ a (sort_learned rs)
unfolding sort_learned
Memᴰ-sort_learned a [] m = elim m [ ]
Memᴰ-sort_learned a (r ∷ rs) m = elim (Memᴰ.cases_cons m) [
  | inl same ↦ Memᴰ.cast same (insert_learned-head r (sort_learned rs))
  | inr later ↦ insert_learned-tail r a (sort_learned rs) (Memᴰ-sort_learned a rs later)
]

Ends-sort_learned :
    (rs : List KnowledgeRecord) (n : Option String) → Ends rs n → Ends (sort_learned rs) n
Ends-sort_learned rs none here = here
Ends-sort_learned rs (some _) (after id previous m same rest) =
    after id previous (Memᴰ-sort_learned previous rs m) same
      (Ends-sort_learned rs previous.supersedes_id rest)

pub clone-IsCanonical :
    (v w : JsonValue) → clone_json_value v ≡ ok w → clone_json_value w ≡ ok (canonical w)
unfolding clone_json_value
clone-IsCanonical v w h = elim (Bool-cases (is_canonical v)) [
  | inl fine ↦
      let same : canonical v ≡ w = ok-injective (rw fine at h) in
      let again : is_canonical w ≡ true = rw (← same) (canonical-IsCanonical v fine) in
      rw again refl
  | inr bad ↦ (let clash = rw bad at h in cc)
]

-- A copy is the record with its value in canonical form.
abbrev pub CopyOf : KnowledgeRecord → KnowledgeRecord → Type 0
CopyOf r copy =
    (copied : JsonValue) × (clone_json_value r.value ≡ ok copied)
    × (copy ≡ record r { value = copied })

pub make_record-CopyOf : (r copy : KnowledgeRecord) → make_record r ≡ ok copy → CopyOf r copy
unfolding make_record
make_record-CopyOf r copy h =
    let (_, _, h₁) = >>=-eq-ok (raise_if (is_unnamed r) value_error) _ h in
    let (_, _, h₂) = >>=-eq-ok (raise_if (is_nonpositive r.schema_version) value_error) _ h₁ in
    let (_, _, h₃) = >>=-eq-ok (raise_if (is_missing r.supersedes_id) value_error) _ h₂ in
    let (copied, got, h₄) = >>=-eq-ok (clone_json_value r.value) _ h₃ in
    (copied, got, sym (ok-injective h₄))

pub make_record-IsMade : (r copy : KnowledgeRecord) → make_record r ≡ ok copy → IsMade copy
unfolding make_record
make_record-IsMade r copy h =
    let (_, named, h₁) = >>=-eq-ok (raise_if (is_unnamed r) value_error) _ h in
    let (_, versioned, h₂) =
      >>=-eq-ok (raise_if (is_nonpositive r.schema_version) value_error) _ h₁ in
    let (_, kept, h₃) = >>=-eq-ok (raise_if (is_missing r.supersedes_id) value_error) _ h₂ in
    let (copied, got, h₄) = >>=-eq-ok (clone_json_value r.value) _ h₃ in
    let result = ok-injective h₄ in
    let again = clone-IsCanonical r.value copied got in
    rw (← result) (record r { value = canonical copied }, rw (named, versioned, kept, again) refl)

or-false : (a b : Bool) → a || b ≡ false → (a ≡ false) × (b ≡ false)
or-false false b h = (refl, h)
or-false true b h = cc

detached_records-IsMade :
    (rs copies : List KnowledgeRecord) → detached_records rs ≡ ok copies → All IsMade copies
unfolding detached_records
detached_records-IsMade [] copies h = rw (← ok-injective h) tt
detached_records-IsMade (r ∷ rs) copies h =
    let (copy, made, h₁) = >>=-eq-ok (make_record r) _ h in
    let (rest, later, h₂) = >>=-eq-ok (detached_records rs) _ h₁ in
    rw (← ok-injective h₂) (make_record-IsMade r copy made, detached_records-IsMade rs rest later)

check_scope-holds :
    (run_id : String) (time : ℕ) (seen rs : List KnowledgeRecord) (u : Unit {0})
    → check_scope run_id time seen rs ≡ ok u
    → All (InScope run_id time) rs
      × All (λ (r : KnowledgeRecord). any (has_id r.knowledge_record_id) seen ≡ false) rs
      × IsDistinct rs
unfolding check_scope
check_scope-holds run_id time seen [] u h = (tt, tt, tt)
check_scope-holds run_id time seen (r ∷ rs) u h =
    let (_, own, h₁) =
      >>=-eq-ok (raise_if (not (r.run_id == run_id) || ltb time r.learned_at) value_error) _ h in
    let (_, new, h₂) =
      >>=-eq-ok (raise_if (any (has_id r.knowledge_record_id) seen) value_error) _ h₁ in
    let (scope, later, distinct) = check_scope-holds run_id time (r ∷ seen) rs u h₂ in
    (
      (((eq_iff r.run_id run_id).0 (ground arith), ground arith), scope),
      (
        ground arith,
        All-map (λ s k. (or-false (r.knowledge_record_id == s.knowledge_record_id) _ k).1) rs later,
      ),
      (
        All-map (λ s k. (or-false (r.knowledge_record_id == s.knowledge_record_id) _ k).0) rs later,
        distinct,
      ),
    )

check_supersession-Ends :
    (all rs : List KnowledgeRecord) (u : Unit {0})
    → check_supersession all rs ≡ ok u
    → All (λ (r : KnowledgeRecord). Ends all r.supersedes_id) rs
unfolding check_supersession
check_supersession-Ends all [] u h = tt
check_supersession-Ends all (r ∷ rs) u h =
    let (_, _, h₁) = >>=-eq-ok (check_previous all r) _ h in
    let (v, ended, h₂) = >>=-eq-ok (check_chain all r) _ h₁ in
    (check_chain-Ends all r v ended, check_supersession-Ends all rs u h₂)

-- A ledger that is constructed holds records of its run and past, with distinct identities, each
-- of which the constructor gives again, and every supersession chain in it ends.
pub make_ledger-IsLedger :
    (run_id : String) (time : ℕ) (records : List KnowledgeRecord) (ledger : KnowledgeLedger)
    → make_ledger run_id time records ≡ ok ledger
    → IsLedger ledger
unfolding make_ledger
make_ledger-IsLedger run_id time records ledger h =
    let (_, _, h₁) = >>=-eq-ok (raise_if (is_empty run_id) value_error) _ h in
    let (copied, copies, h₂) = >>=-eq-ok (detached_records records) _ h₁ in
    let (u, scoped, h₃) = >>=-eq-ok (check_scope run_id time [] copied) _ h₂ in
    let (v, ended, h₄) = >>=-eq-ok (check_supersession copied copied) _ h₃ in
    let (scope, _, distinct) = check_scope-holds run_id time [] copied u scoped in
    let made = detached_records-IsMade records copied copies in
    let ends =
      All-map (λ r e. Ends-sort_learned copied r.supersedes_id e) copied
        (check_supersession-Ends copied copied v ended) in
    rw (← ok-injective h₄) (record {
      made = All-sort_learned IsMade copied made;
      scope = All-sort_learned (InScope run_id time) copied scope;
      distinct = sort_learned-IsDistinct copied distinct;
      ends = All-sort_learned (λ r. Ends (sort_learned copied) r.supersedes_id) copied ends;
    })
