-- ===== src/Modules/Knowledge/Projection/Complete.antt =====
-- The log of a consistent kernel is complete in the sense of the projection.
use journey_map.Prelude.{
  ℕ, ◌+◌, ◌≤◌, ◌<◌, String, ◌≡◌, refl, sym, ◌∙◌, inl, inr, true, false, List, [], ◌∷◌, ◌==◌, ◌==ℕ◌,
  ltb, arith, any, All, All-map, Bool-cases, eq_iff,
}
use journey_map.Prelude.Int.{pos_part}
use journey_map.Prelude.Exec.{ok, >>=-eq-ok, ok-injective}
use journey_map.Json.{JsonObject, clone_json_object}
use journey_map.Core.Ids.{scoped_id}
use journey_map.Core.Ids.Unique.{scoped_id-injective}
use journey_map.Core.Events
use journey_map.Core.Events.{EventEnvelope}
use journey_map.Core.Kernel.State.{SimulationKernel}
use journey_map.Core.Kernel.Log.{IsLog, IsLog-weaken}
use journey_map.Core.Kernel.Invariant.{IsConsistent}
use journey_map.Modules.Knowledge.Projection.{check_log, has_event_id, detached_events}

-- The identity of an event whose number is less than `n`.
abbrev IsEarlier : String → ℕ → EventEnvelope → Type 0
IsEarlier run_id n e = (m : ℕ) × (m < n) × (e.event_id ≡ scoped_id run_id ":event:" m)

is_new :
    (run_id : String) (n : ℕ) (id : String) (seen : List EventEnvelope)
    → id ≡ scoped_id run_id ":event:" n
    → All (IsEarlier run_id n) seen
    → any (has_event_id id) seen ≡ false
is_new run_id n id [] e h = refl
is_new run_id n id (f ∷ fs) e ((m, less, made), h) = elim (Bool-cases (f.event_id == id)) [
  | inl same ↦
      let equal = sym made ∙ (eq_iff f.event_id id).0 same ∙ e in
      let number : m ≡ n = scoped_id-injective run_id ":event:" m n equal in absurd (omega arith)
  | inr other ↦ rw other (is_new run_id n id fs e h)
]

check_log-IsLog :
    (run_id : String) (n time : ℕ) (seen es : List EventEnvelope)
    → IsLog run_id n time es
    → All (IsEarlier run_id n) seen
    → check_log run_id n time seen es ≡ ok tt
unfolding check_log
check_log-IsLog run_id n time seen [] l h = refl
check_log-IsLog run_id n time seen (e ∷ es) (run, number, name, later, l) h =
    let own : (e.run_id == run_id) ≡ true = (eq_iff e.run_id run_id).1 run in
    let new = is_new run_id n e.event_id seen name h in
    let passes : ltb e.simulation_time time ≡ false = ground arith in
    let numbered : (e.event_sequence ==ℕ n) ≡ true = ground arith in
    let before : All (IsEarlier run_id (n + 1)) (e ∷ seen) =
      ((n, omega arith, name), All-map (λ f q. (q.0, omega (arith, q.1), q.2)) seen h) in
    rw (own, numbered, new, passes)
      (check_log-IsLog run_id (n + 1) e.simulation_time (e ∷ seen) es l before)

detached-keeps :
    (event copy : EventEnvelope)
    → Events.detached event ≡ ok copy
    → (payload : JsonObject) × (copy ≡ record event { payload = payload })
unfolding Events.detached
detached-keeps event copy h =
    let (payload, _, h₁) = >>=-eq-ok (clone_json_object event.payload) _ h in
    (payload, sym (ok-injective h₁))

detached_events-IsLog :
    (run_id : String) (n time : ℕ) (es copies : List EventEnvelope)
    → detached_events es ≡ ok copies
    → IsLog run_id n time es
    → IsLog run_id n time copies
unfolding detached_events
detached_events-IsLog run_id n time [] copies h l = rw (← ok-injective h) tt
detached_events-IsLog run_id n time (e ∷ es) copies h (run, number, name, later, l) =
    let (copy, made, h₁) = >>=-eq-ok (Events.detached e) _ h in
    let (rest, others, h₂) = >>=-eq-ok (detached_events es) _ h₁ in
    let (payload, same) = detached-keeps e copy made in
    let tail = detached_events-IsLog run_id (n + 1) e.simulation_time es rest others l in
    rw (← ok-injective h₂, same) (run, number, name, later, tail)

-- The log of a consistent kernel passes the check of a projection whose initial ledger is of the
-- same run and not later than its start, once its events are copied.
pub check_log-IsConsistent :
    {W : Type 0} (k : SimulationKernel W) (time : ℕ) (committed : List EventEnvelope)
    → IsConsistent k
    → time ≤ pos_part k.run.manifest.start_time
    → detached_events k.events ≡ ok committed
    → check_log k.run.manifest.run_id 1 time [] committed ≡ ok tt
check_log-IsConsistent k time committed c h e =
    let copied =
      detached_events-IsLog k.run.manifest.run_id 1 (pos_part k.run.manifest.start_time) k.events
        committed e c.log in
    check_log-IsLog k.run.manifest.run_id 1 time [] committed
      (IsLog-weaken k.run.manifest.run_id 1 time (pos_part k.run.manifest.start_time) committed h
        copied)
      tt
