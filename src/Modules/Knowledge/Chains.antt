-- ===== src/Modules/Knowledge/Chains.antt =====
-- Every supersession ends, and the loop that follows it does.
use mathlib.Core.List.{Memᴰ}
use journey_map.Prelude.{
  ℕ, zero, suc, ◌≤◌, ◌<◌, String, ◌≡◌, ◌≢◌, ap, ◌∙◌, inl, inr, true, false, Option, none, some,
  List, [], ◌∷◌, ◌==◌, arith, if◌then◌else◌, any, first, first-Memᴰ, length, Bool-cases,
  Option-cases, eq_iff, eq_refl,
}
use journey_map.Prelude.Exec.{
  ok, value_error, >>=-eq-ok, or_raise-eq-ok, ok-injective, raise_if, or_raise, Result-cases,
}
use journey_map.Modules.Knowledge.{
  KnowledgeRecord, has_id, by_id, next_id, continue_walk, walk, check_chain,
}

-- From a superseded identity, or none, the records of `all` lead to one that supersedes nothing.
pub data Ends (all : List KnowledgeRecord) : Option String → Type 0 where
  here : Ends all none
  after :
      (id : String) (previous : KnowledgeRecord)
      → Memᴰ previous all
      → (previous.knowledge_record_id == id) ≡ true
      → Ends all previous.supersedes_id
      → Ends all (some id)

-- The records whose identities are not among the seen ones.
unfoldable unseen : List String → List KnowledgeRecord → ℕ
unseen seen [] = 0
unseen seen (r ∷ rs) =
    let rest = unseen seen rs in
    if any (λ j. j == r.knowledge_record_id) seen then rest else suc rest

unseen-length : (seen : List String) (rs : List KnowledgeRecord) → unseen seen rs ≤ length rs
unfolding unseen
unseen-length seen [] = omega arith
unseen-length seen (r ∷ rs) = ground (arith, unseen-length seen rs)

unseen_mono :
    (id : String) (seen : List String) (rs : List KnowledgeRecord)
    → unseen (id ∷ seen) rs ≤ unseen seen rs
unfolding unseen
unseen_mono id seen [] = omega arith
unseen_mono id seen (r ∷ rs) = ground (arith, unseen_mono id seen rs)

-- Seeing the identity of a record that was not seen leaves fewer.
unseen-less :
    (id : String) (seen : List String) (rs : List KnowledgeRecord) (r : KnowledgeRecord)
    → by_id id rs ≡ some r
    → any (λ j. j == id) seen ≡ false
    → unseen (id ∷ seen) rs < unseen seen rs
unfolding unseen
unseen-less id seen [] r h k = cc
unseen-less id seen (s ∷ rs) r h k = elim (Bool-cases (s.knowledge_record_id == id)) [
  | inl found ↦
      let same : s.knowledge_record_id ≡ id = (eq_iff s.knowledge_record_id id).0 found in
      let new : any (λ j. j == s.knowledge_record_id) seen ≡ false = rw same k in
      let itself : (id == s.knowledge_record_id) ≡ true = rw same (eq_refl id) in
      rw (new, itself) (let less = unseen_mono id seen rs in omega (arith, less))
  | inr other ↦
      let apart : (id == s.knowledge_record_id) ≡ false =
        ground (arith, eq_iff s.knowledge_record_id id, eq_iff id s.knowledge_record_id) in
      let later = unseen-less id seen rs r (rw (other, first) at h) k in
      rw apart (ground (arith, later))
]

next_id-eq-ok :
    (all : List KnowledgeRecord) (seen : List String) (id : String) (n : Option String)
    → next_id all seen id ≡ ok n
    → (any (λ j. j == id) seen ≡ false)
      × ((previous : KnowledgeRecord) × (by_id id all ≡ some previous)
          × (previous.supersedes_id ≡ n))
unfolding next_id
next_id-eq-ok all seen id n h =
    let (_, new, h₁) = >>=-eq-ok (raise_if (any (λ j. j == id) seen) value_error) _ h in
    let (previous, found, h₂) = >>=-eq-ok (or_raise (by_id id all) value_error) _ h₁ in
    (ground arith, (previous, or_raise-eq-ok _ _ previous found, ok-injective h₂))

-- With more fuel than there are records that were not seen, the walk ends by itself.
walk-some :
    (fuel : ℕ) (all : List KnowledgeRecord) (seen : List String) (n : Option String)
    → unseen seen all < fuel
    → walk fuel all seen n ≢ none
unfolding walk
walk-some zero all seen n h = absurd (omega (arith, h))
walk-some (suc fuel) all seen none h = λ e. cc
walk-some (suc fuel) all seen (some id) h = elim (Result-cases (next_id all seen id)) [
  | inr (x, e) ↦ rw (e, continue_walk) (λ p. cc)
  | inl (n, e) ↦
      let (new, (previous, found, _)) = next_id-eq-ok all seen id n e in
      let less = unseen-less id seen all previous found new in
      rw (e, continue_walk) (walk-some fuel all (id ∷ seen) n (omega (arith, h, less)))
]

-- A walk that ends without a raise has followed the chain to its end.
walk-Ends :
    (fuel : ℕ) (all : List KnowledgeRecord) (seen : List String) (n : Option String) (u : Unit {0})
    → walk fuel all seen n ≡ some (ok u)
    → Ends all n
unfolding walk
walk-Ends fuel all seen none u h = here
walk-Ends zero all seen (some id) u h = cc
walk-Ends (suc fuel) all seen (some id) u h = elim (Result-cases (next_id all seen id)) [
  | inr (x, e) ↦ (let clash = rw (e, continue_walk) at h in cc)
  | inl (n, e) ↦
      let (new, (previous, found, next)) = next_id-eq-ok all seen id n e in
      let (member, same) = first-Memᴰ (has_id id) all previous found in
      let rest : Ends all n = walk-Ends fuel all (id ∷ seen) n u (rw (e, continue_walk) at h) in
      after id previous member same (rw next rest)
]

-- The loop over a chain has fuel enough: it ends by itself, whatever the records and their
-- supersessions are, cycles included.
pub walk-ends :
    (all : List KnowledgeRecord) (r : KnowledgeRecord)
    → walk (suc (length all)) all (r.knowledge_record_id ∷ []) r.supersedes_id ≢ none
walk-ends all r =
    walk-some (suc (length all)) all (r.knowledge_record_id ∷ []) r.supersedes_id
      (let fits = unseen-length (r.knowledge_record_id ∷ []) all in omega (arith, fits))

-- The chain check of a record: its fuel is enough, and it passes only where the chain ends.
pub check_chain-Ends :
    (all : List KnowledgeRecord) (r : KnowledgeRecord) (u : Unit {0})
    → check_chain all r ≡ ok u
    → Ends all r.supersedes_id
unfolding check_chain
check_chain-Ends all r u h =
    elim (Option-cases (walk (suc (length all)) all (r.knowledge_record_id ∷ []) r.supersedes_id)) [
      | inl spent ↦ absurd (walk-ends all r spent)
      | inr (ended, e) ↦
          walk-Ends (suc (length all)) all (r.knowledge_record_id ∷ []) r.supersedes_id u
            (e ∙ ap some (rw (e, check_chain) at h))
    ]
