-- ===== src/Scenarios/Acquired/Once.antt =====
-- Who learns of the collapse of the bridge, and from what.
use mathlib.Core.List.{Memᴰ}
use journey_map.Prelude.{
  ℕ, ◌+◌, String, ◌≡◌, refl, sym, ap, ◌∙◌, inl, inr, Bool, false, List, [], ◌∷◌, ◌++◌, All,
  All-append, All-map, Bool-cases,
}
use journey_map.Prelude.Exec.{ok, >>=-eq-ok, ok-injective}
use journey_map.Core.Events.{EventEnvelope}
use journey_map.Core.Modules.{mem}
use journey_map.Modules.Knowledge.{KnowledgeRecord, make_record}
use journey_map.Modules.Knowledge.Ledgers.{make_record-CopyOf}
use journey_map.Scenarios.Acquired.{
  shown_to, direct_record, learn, fold_events, project_bridge_knowledge,
}

-- The actors who know after the records, of those who knew before.
abbrev after : List String → List KnowledgeRecord → List String
after seen [] = seen
after seen (r ∷ rs) = after (r.actor_id ∷ seen) rs

-- Each record is of an actor who did not know before.
abbrev pub IsOnce : List String → List KnowledgeRecord → Type 0
IsOnce seen [] = Unit
IsOnce seen (r ∷ rs) = (mem r.actor_id seen ≡ false) × IsOnce (r.actor_id ∷ seen) rs

-- A record that an event of the log gives.
abbrev pub IsDirect : List EventEnvelope → KnowledgeRecord → Type 0
IsDirect events r =
    (event : EventEnvelope) × Memᴰ event events
    × (r.source_ref ≡ event.event_id)
    × (r.learned_at ≡ event.simulation_time)

IsOnce-append :
    (seen : List String) (rs ss : List KnowledgeRecord)
    → IsOnce seen rs
    → IsOnce (after seen rs) ss
    → IsOnce seen (rs ++ ss)
IsOnce-append seen [] ss h k = k
IsOnce-append seen (r ∷ rs) ss h k = (h.0, IsOnce-append (r.actor_id ∷ seen) rs ss h.1 k)

-- The records of one event.
abbrev IsLearnt : EventEnvelope → List String → List KnowledgeRecord → List String → Type 0
IsLearnt event seen rs seen' =
    IsOnce seen rs
    × (seen' ≡ after seen rs)
    × All (λ r. (r.source_ref ≡ event.event_id) × (r.learned_at ≡ event.simulation_time)) rs

learn-IsLearnt :
    (event : EventEnvelope) (index : ℕ) (seen actors : List String) (rs : List KnowledgeRecord)
    (seen' : List String)
    → learn event index seen actors ≡ ok (rs, seen')
    → IsLearnt event seen rs seen'
unfolding learn
learn-IsLearnt event index seen [] rs seen' h =
    rw (← ap (λ p. p.0) (ok-injective h)) (tt, sym (ap (λ p. p.1) (ok-injective h)), tt)
learn-IsLearnt event index seen (actor ∷ actors) rs seen' h = elim (Bool-cases (mem actor seen)) [
  | inl known ↦ learn-IsLearnt event (index + 1) seen actors rs seen' (rw (known, learn) at h)
  | inr new ↦
      let given = rw (new, learn) at h in
      let (made, got, h₁) = >>=-eq-ok (make_record (direct_record event index actor)) _ given in
      let ((later, known_then), others, h₂) =
        >>=-eq-ok (learn event (index + 1) (actor ∷ seen) actors) _ h₁ in
      let (once, then_, direct) =
        learn-IsLearnt event (index + 1) (actor ∷ seen) actors later known_then others in
      let (v, _, copied) = make_record-CopyOf (direct_record event index actor) made got in
      let own : actor ≡ made.actor_id = sym (ap (λ x. x.actor_id) copied) in
      rw (← ap (λ p. p.0) (ok-injective h₂)) (
        (rw own at new, rw own at once),
        sym (ap (λ p. p.1) (ok-injective h₂)) ∙ then_ ∙ ap (λ a. after (a ∷ seen) later) own,
        ((ap (λ x. x.source_ref) copied, ap (λ x. x.learned_at) copied), direct),
      )
]

fold_events-IsOnce :
    (collapsed : Bool) (seen : List String) (events : List EventEnvelope)
    (rs : List KnowledgeRecord)
    → fold_events collapsed seen events ≡ ok rs
    → IsOnce seen rs × All (IsDirect events) rs
unfolding fold_events
fold_events-IsOnce collapsed seen [] rs h = rw (← ok-injective h) (tt, tt)
fold_events-IsOnce collapsed seen (event ∷ events) rs h =
    let (shown, _, h₁) = >>=-eq-ok (shown_to event collapsed) _ h in
    let ((acquired, known), got, h₂) = >>=-eq-ok (learn event 1 seen shown.0) _ h₁ in
    let (later, others, h₃) = >>=-eq-ok (fold_events shown.1 known events) _ h₂ in
    let (once, same, direct) = learn-IsLearnt event 1 seen shown.0 acquired known got in
    let (once', direct') = fold_events-IsOnce shown.1 known events later others in
    rw (← ok-injective h₃) (
      IsOnce-append seen acquired later once (rw same at once'),
      All-append (IsDirect (event ∷ events)) acquired later
          (All-map (λ r d. (event, Memᴰ.head refl, d.0, d.1)) acquired direct)
          (All-map (λ r d. (d.0, Memᴰ.tail d.1, d.2, d.3)) later direct'),
    )

-- What the rule of the bridge gives of a log: no actor learns of the collapse twice, and each
-- record cites an event of the log and its time.
pub project_bridge_knowledge-IsOnce :
    (events : List EventEnvelope) (rs : List KnowledgeRecord)
    → project_bridge_knowledge events ≡ ok rs
    → IsOnce [] rs × All (IsDirect events) rs
unfolding project_bridge_knowledge
project_bridge_knowledge-IsOnce events rs h = fold_events-IsOnce false [] events rs h
