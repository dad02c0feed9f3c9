-- ===== src/Modules/Knowledge/Views.antt =====
-- What an actor's view of a ledger shows.
use journey_map.Prelude.{
  String, ◌≡◌, refl, ap, true, false, not, List, [], ◌∷◌, ◌==◌, arith, any, All, All-map, All-keep,
  All-both, eq_iff, keep,
}
use journey_map.Prelude.Exec.{ok}
use journey_map.Modules.Knowledge.{
  KnowledgeRecord, KnowledgeLedger, ActorKnowledgeView, make_record, detached_records, make_view,
  for_actor, has_two_scopes, same_scope,
}
use journey_map.Modules.Knowledge.Ledgers.{IsMade, IsLedger, InScope, make_record-CopyOf}

abbrev pub ids : List KnowledgeRecord → List String
ids [] = []
ids (r ∷ rs) = r.knowledge_record_id ∷ ids rs

-- The records of one actor in one run.
abbrev pub Of : String → String → KnowledgeRecord → Type 0
Of run_id actor_id r = (r.run_id ≡ run_id) × (r.actor_id ≡ actor_id)

pub Of-copy :
    (run_id actor_id : String) (r copy : KnowledgeRecord)
    → make_record r ≡ ok copy
    → Of run_id actor_id r
    → Of run_id actor_id copy
Of-copy run_id actor_id r copy made h =
    let (_, _, same) = make_record-CopyOf r copy made in rw same h

-- Records that the constructor gave are copied one by one without a raise.
detached_records-total :
    (run_id actor_id : String) (rs : List KnowledgeRecord)
    → All IsMade rs
    → All (Of run_id actor_id) rs
    → (copies : List KnowledgeRecord) × (detached_records rs ≡ ok copies)
      × (ids copies ≡ ids rs)
      × All (Of run_id actor_id) copies
unfolding detached_records
detached_records-total run_id actor_id [] made h = ([], refl, refl, tt)
detached_records-total run_id actor_id (r ∷ rs) ((copy, made), others) h =
    let (copies, e, same, holds) = detached_records-total run_id actor_id rs others h.1 in
    let (_, _, kept) = make_record-CopyOf r copy made in
    (
      copy ∷ copies,
      rw (made, e) refl,
      rw same (ap (λ c. c.knowledge_record_id ∷ ids rs) kept),
      (Of-copy run_id actor_id r copy made h.0, holds),
    )

same_scope-Of :
    (run_id actor_id : String) (r s : KnowledgeRecord)
    → Of run_id actor_id r
    → Of run_id actor_id s
    → same_scope r s ≡ true
same_scope-Of run_id actor_id r s (run, actor) (run', actor') =
    ground (arith, eq_iff r.run_id s.run_id, eq_iff r.actor_id s.actor_id)

any-Of :
    (run_id actor_id : String) (r : KnowledgeRecord) (rs : List KnowledgeRecord)
    → Of run_id actor_id r
    → All (Of run_id actor_id) rs
    → any (λ s. not (same_scope r s)) rs ≡ false
any-Of run_id actor_id r [] own h = refl
any-Of run_id actor_id r (s ∷ rs) own h =
    rw (same_scope-Of run_id actor_id r s own h.0) (any-Of run_id actor_id r rs own h.1)

has_two_scopes-Of :
    (run_id actor_id : String) (rs : List KnowledgeRecord)
    → All (Of run_id actor_id) rs
    → has_two_scopes rs ≡ false
has_two_scopes-Of run_id actor_id [] h = refl
has_two_scopes-Of run_id actor_id (r ∷ rs) h = any-Of run_id actor_id r rs h.0 h.1

-- A constructed ledger has a view for every actor: it is given without a raise, it shows the
-- identities of the actor's records in the ledger's order, each record it shows is of that actor
-- and of the ledger's run.
pub for_actor-private :
    (ledger : KnowledgeLedger) (actor_id : String)
    → IsLedger ledger
    → (view : ActorKnowledgeView) × (for_actor actor_id ledger ≡ ok view)
      × (ids view.records ≡ ids (keep (λ r. r.actor_id == actor_id) ledger.records))
      × All (Of ledger.run_id actor_id) view.records
unfolding for_actor make_view
for_actor-private ledger actor_id h =
    let own = keep (λ r. r.actor_id == actor_id) ledger.records in
    let both =
      All-keep (λ r. IsMade r × InScope ledger.run_id ledger.initial_time r)
        (λ r. r.actor_id == actor_id) ledger.records
        (All-both IsMade (InScope ledger.run_id ledger.initial_time) ledger.records h.made
          h.scope) in
    let made : All IsMade own = All-map (λ r p. p.0.0) own both in
    let of : All (Of ledger.run_id actor_id) own =
      All-map (λ r p. (p.0.1.0, (eq_iff r.actor_id actor_id).0 p.1)) own both in
    let (copies, e, same, holds) = detached_records-total ledger.run_id actor_id own made of in
    (
      record { records = copies },
      rw (has_two_scopes-Of ledger.run_id actor_id own of, e) refl,
      same,
      holds,
    )
