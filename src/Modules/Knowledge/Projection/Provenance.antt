-- ===== src/Modules/Knowledge/Projection/Provenance.antt =====
-- Where the records of a projection come from.
use mathlib.Core.List.{Memᴰ}
use journey_map.Prelude.{
  ℕ, String, ◌≡◌, refl, sym, ◌⊎◌, inl, inr, true, false, not, Option, List, [], ◌∷◌, ◌++◌, ◌==◌,
  ◌==ℕ◌, is_empty, arith, any, keep, first, first-Memᴰ, All, All-map, All-keep, All-append, eq_iff,
}
use journey_map.Prelude.Exec.{
  ok, value_error, >>=-eq-ok, or_raise-eq-ok, ok-injective, raise_if, or_raise,
}
use journey_map.Core.Events
use journey_map.Core.Events.{EventEnvelope}
use journey_map.Modules.Knowledge.{
  KnowledgeRecord, KnowledgeLedger, make_record, detached_records, check_scope, check_supersession,
  make_ledger, history,
}
use journey_map.Modules.Knowledge.Ledgers.{
  IsLedger, make_ledger-IsLedger, make_record-CopyOf, All-sort_learned,
}
use journey_map.Modules.Knowledge.Views.{ids}
use journey_map.Modules.Knowledge.Projection.{
  KnowledgeEventRule, KnowledgeProjector, acquire, detached_events, check_log, check_sources,
  is_source_of, is_foreign, has_event_id, extend, apply_rules, accumulate, project,
}

-- A predicate that copies keep is kept by the ledger's constructor and by `extend`.
module _ (P : KnowledgeRecord → Type 0)
    (kept : (r copy : KnowledgeRecord) → make_record r ≡ ok copy → P r → P copy) where
  pub detached_records-All :
      (rs copies : List KnowledgeRecord) → detached_records rs ≡ ok copies → All P rs → All P copies
  unfolding detached_records
  detached_records-All [] copies e h = rw (← ok-injective e) tt
  detached_records-All (r ∷ rs) copies e h =
      let (copy, made, e₁) = >>=-eq-ok (make_record r) _ e in
      let (rest, later, e₂) = >>=-eq-ok (detached_records rs) _ e₁ in
      rw (← ok-injective e₂) (kept r copy made h.0, detached_records-All rs rest later h.1)

  make_ledger-All :
      (run_id : String) (time : ℕ) (rs : List KnowledgeRecord) (ledger : KnowledgeLedger)
      → make_ledger run_id time rs ≡ ok ledger
      → All P rs
      → All P ledger.records
  unfolding make_ledger
  make_ledger-All run_id time rs ledger e h =
      let (_, _, e₁) = >>=-eq-ok (raise_if (is_empty run_id) value_error) _ e in
      let (copied, copies, e₂) = >>=-eq-ok (detached_records rs) _ e₁ in
      let (_, _, e₃) = >>=-eq-ok (check_scope run_id time [] copied) _ e₂ in
      let (_, _, e₄) = >>=-eq-ok (check_supersession copied copied) _ e₃ in
      rw (← ok-injective e₄) (All-sort_learned P copied (detached_records-All rs copied copies h))

  extend-All :
      (run_id : String) (time : ℕ) (snapshot next : KnowledgeLedger) (added : List KnowledgeRecord)
      → extend run_id time snapshot added ≡ ok next
      → All P snapshot.records
      → All P added
      → IsLedger next × All P next.records
  unfolding extend history
  extend-All run_id time snapshot next added e h k =
      let (known, copies, e₁) = >>=-eq-ok (history snapshot) _ e in
      let known-P = detached_records-All snapshot.records known copies h in
      (
        make_ledger-IsLedger run_id time (known ++ added) next e₁,
        make_ledger-All run_id time (known ++ added) next e₁ (All-append P known added known-P k),
      )

-- A record that cites a committed event and was learned when the event happened.
abbrev pub IsSourced : List EventEnvelope → KnowledgeRecord → Type 0
IsSourced committed r =
    (event : EventEnvelope) × Memᴰ event committed
    × (r.source_ref ≡ event.event_id)
    × (r.learned_at ≡ event.simulation_time)

-- A record that was known at the start, or that a committed event gave.
abbrev pub HasProvenance : KnowledgeLedger → List EventEnvelope → KnowledgeRecord → Type 0
HasProvenance initial committed r =
    Memᴰ r.knowledge_record_id (ids initial.records) ⊎ IsSourced committed r

HasProvenance-copy :
    (initial : KnowledgeLedger) (committed : List EventEnvelope) (r copy : KnowledgeRecord)
    → make_record r ≡ ok copy
    → HasProvenance initial committed r
    → HasProvenance initial committed copy
HasProvenance-copy initial committed r copy made h =
    let (_, _, same) = make_record-CopyOf r copy made in rw same h

-- What the checks of the constructor give.
check_sources-IsSourced :
    (committed : List EventEnvelope) (rs : List KnowledgeRecord) (u : Unit {0})
    → check_sources committed rs ≡ ok u
    → All (IsSourced committed) rs
unfolding check_sources
check_sources-IsSourced committed [] u h = tt
check_sources-IsSourced committed (r ∷ rs) u h =
    let (source, found, h₁) =
      >>=-eq-ok (or_raise (first (has_event_id r.source_ref) committed) value_error) _ h in
    let (_, timed, h₂) =
      >>=-eq-ok (raise_if (not (r.learned_at ==ℕ source.simulation_time)) value_error) _ h₁ in
    let (member, same) =
      first-Memᴰ (has_event_id r.source_ref) committed source (or_raise-eq-ok _ _ source found) in
    (
      (source, member, sym ((eq_iff source.event_id r.source_ref).0 same), ground arith),
      check_sources-IsSourced committed rs u h₂,
    )

is_foreign-IsSourced :
    (committed : List EventEnvelope) (event : EventEnvelope) (rs : List KnowledgeRecord)
    → Memᴰ event committed
    → any (is_foreign event) rs ≡ false
    → All (IsSourced committed) rs
is_foreign-IsSourced committed event [] m h = tt
is_foreign-IsSourced committed event (r ∷ rs) m h =
    let cites : (r.source_ref == event.event_id) ≡ true = ground arith in
    (
      (event, m, (eq_iff r.source_ref event.event_id).0 cites, ground arith),
      is_foreign-IsSourced committed event rs m (ground arith),
    )

module _ (initial : KnowledgeLedger) (committed : List EventEnvelope) where
  abbrev Traced : KnowledgeLedger → Type 0
  Traced ledger = All (HasProvenance initial committed) ledger.records

  sourced :
      (rs : List KnowledgeRecord)
      → All (IsSourced committed) rs
      → All (HasProvenance initial committed) rs
  sourced = All-map (λ r s. inr s)

  extend-Traced :
      (run_id : String) (time : ℕ) (snapshot next : KnowledgeLedger) (added : List KnowledgeRecord)
      → extend run_id time snapshot added ≡ ok next
      → Traced snapshot
      → All (IsSourced committed) added
      → IsLedger next × Traced next
  extend-Traced run_id time snapshot next added e h k =
      extend-All (HasProvenance initial committed) (HasProvenance-copy initial committed) run_id
        time snapshot next added e h (sourced added k)

  apply_rules-Traced :
      (run_id : String) (event : EventEnvelope) (previous : List EventEnvelope)
      (rules : List KnowledgeEventRule) (snapshot next : KnowledgeLedger)
      → Memᴰ event committed
      → apply_rules run_id event previous rules snapshot ≡ ok next
      → IsLedger snapshot
      → Traced snapshot
      → IsLedger next × Traced next
  unfolding apply_rules
  apply_rules-Traced run_id event previous [] snapshot next m e l t = rw (← ok-injective e) (l, t)
  apply_rules-Traced run_id event previous (rule ∷ rules) snapshot next m e l t =
      let (evidence, _, e₁) = >>=-eq-ok (Events.detached event) _ e in
      let (earlier, _, e₂) = >>=-eq-ok (detached_events previous) _ e₁ in
      let (shown, _, e₃) = >>=-eq-ok (extend run_id event.simulation_time snapshot []) _ e₂ in
      let (added, _, e₄) = >>=-eq-ok (rule evidence earlier shown) _ e₃ in
      let (_, own, e₅) = >>=-eq-ok (raise_if (any (is_foreign event) added) value_error) _ e₄ in
      let (more, extended, e₆) =
        >>=-eq-ok (extend run_id event.simulation_time snapshot added) _ e₅ in
      let (l', t') =
        extend-Traced run_id event.simulation_time snapshot more added extended t
          (is_foreign-IsSourced committed event added m (ground arith)) in
      apply_rules-Traced run_id event previous rules more next m e₆ l' t'

  accumulate-Traced :
      (run_id : String) (rules : List KnowledgeEventRule) (acquired : List KnowledgeRecord)
      (previous events : List EventEnvelope) (snapshot next : KnowledgeLedger)
      → All (λ event. Memᴰ event committed) events
      → accumulate run_id rules acquired previous events snapshot ≡ ok next
      → All (IsSourced committed) acquired
      → IsLedger snapshot
      → Traced snapshot
      → IsLedger next × Traced next
  unfolding accumulate
  accumulate-Traced run_id rules acquired previous [] snapshot next m e s l t =
      rw (← ok-injective e) (l, t)
  accumulate-Traced run_id rules acquired previous (event ∷ events) snapshot next m e s l t =
      let (direct, extended, e₁) =
        >>=-eq-ok
          (extend run_id event.simulation_time snapshot (keep (is_source_of event) acquired)) _ e in
      let (after, applied, e₂) = >>=-eq-ok (apply_rules run_id event previous rules direct) _ e₁ in
      let own = All-keep (IsSourced committed) (is_source_of event) acquired s in
      let (l₁, t₁) =
        extend-Traced run_id event.simulation_time snapshot direct _ extended t
          (All-map (λ r p. p.0) (keep (is_source_of event) acquired) own) in
      let (l₂, t₂) =
        apply_rules-Traced run_id event previous rules direct after m.0 applied l₁ t₁ in
      accumulate-Traced run_id rules acquired (previous ++ event ∷ []) events after next m.1 e₂ s l₂
        t₂

All-Memᴰ : (es : List EventEnvelope) → All (λ e. Memᴰ e es) es
All-Memᴰ [] = tt
All-Memᴰ (e ∷ es) = (Memᴰ.head refl, All-map (λ f m. Memᴰ.tail m) es (All-Memᴰ es))

initial-Traced :
    (committed : List EventEnvelope) (rs : List KnowledgeRecord)
    → All (λ (r : KnowledgeRecord). Memᴰ r.knowledge_record_id (ids rs)) rs
initial-Traced committed [] = tt
initial-Traced committed (r ∷ rs) =
    (Memᴰ.head refl, All-map (λ s m. Memᴰ.tail m) rs (initial-Traced committed rs))

-- A projection that is built is a ledger, and each of its records was known at the start or
-- cites a committed event, at whose time it was learned.
pub project-HasProvenance :
    (initial : KnowledgeLedger) (events : List EventEnvelope)
    (projector : Option KnowledgeProjector) (rules : List KnowledgeEventRule)
    (snapshot : KnowledgeLedger)
    → project initial events projector rules ≡ ok snapshot
    → (committed : List EventEnvelope) × (detached_events events ≡ ok committed)
      × IsLedger snapshot
      × All (HasProvenance initial committed) snapshot.records
unfolding project
project-HasProvenance initial events projector rules snapshot e =
    let (committed, copies, e₁) = >>=-eq-ok (detached_events events) _ e in
    let (_, _, e₂) =
      >>=-eq-ok (check_log initial.run_id 1 initial.initial_time [] committed) _ e₁ in
    let (acquired, _, e₃) = >>=-eq-ok (acquire projector committed) _ e₂ in
    let (u, checked, e₄) = >>=-eq-ok (check_sources committed acquired) _ e₃ in
    let (start, started, e₅) =
      >>=-eq-ok (extend initial.run_id initial.initial_time initial []) _ e₄ in
    let known = All-map (λ r m. inl m) initial.records (initial-Traced committed initial.records) in
    let (l, t) =
      extend-Traced initial committed initial.run_id initial.initial_time initial start [] started
        known tt in
    let (ledger, traced) =
      accumulate-Traced initial committed initial.run_id rules acquired [] committed start snapshot
        (All-Memᴰ committed) e₅ (check_sources-IsSourced committed acquired u checked) l t in
    (committed, copies, ledger, traced)
