-- ===== src/Core/Kernel/Step.antt =====
-- One round of the loop of `advance_to`.
use journey_map.Prelude.{
  ℕ, ◌≤◌, String, ◌≡◌, refl, inl, inr, true, List, [], ◌∷◌, ◌++◌, arith, All, eq_refl,
}
use journey_map.Prelude.Int.{pos}
use journey_map.Prelude.Exec.{Error, Result, ok, err}
use journey_map.Prelude.State.{◌>>=◌, continue}
use journey_map.Json.{JsonObject}
use journey_map.Json.Laws.{same_object_refl}
use journey_map.Core.Rng.{DeterministicRng, IsWord}
use journey_map.Core.Run.{advance_clock}
use journey_map.Core.Scheduler.{ScheduledEvent}
use journey_map.Core.Scheduler.Order as Order
use journey_map.Core.Scheduler.Order.{All-due_le, pop_next_due-head}
use journey_map.Core.Events.{EventEnvelope, publish}
use journey_map.Core.Handlers.{TransitionPlan, SystemEventOutcome}
use journey_map.Core.Kernel.State.{SimulationKernel, set_now}
use journey_map.Core.Kernel.Commit.{Prepared, prepare}
use journey_map.Core.Kernel.Log.{IsPast-mono}
use journey_map.Core.Kernel.Advance.{
  same_event, system_source, make_outcome, publish_events, published, move_clock, consume,
  guarded_dispatch, advance_step,
}
use journey_map.Core.Kernel.Atomic.{after_commit}
use journey_map.Core.Kernel.Invariant.{IsConsistent}
use journey_map.Core.Kernel.Dispatch.{dispatch-DispatchEnds}

same_event_refl : (e : ScheduledEvent) → same_event e e ≡ true
unfolding same_event
same_event_refl e = ground (
  arith,
  eq_refl e.scheduled_event_id,
  eq_refl e.run_id,
  eq_refl e.event_type,
  eq_refl e.correlation_id,
  same_object_refl e.payload,
)

module _ {W : Type 0} where
  published-outside :
      (out : Result (Unit {0}) × W)
      (later : SimulationKernel W → Result (Unit {0}) × SimulationKernel W) (k : SimulationKernel W)
      → ((l : SimulationKernel W)
          → (r : Result (Unit {0})) × (w : W) × (later l ≡ (r, record l { outside = w })))
      → (r : Result (Unit {0})) × (w : W) × (published out later k ≡ (r, record k { outside = w }))
  unfolding published
  published-outside (err x, w) later k h = (err x, w, refl)
  published-outside (ok _, w) later k h = h (record k { outside = w })

  -- Publication acts on the outside world alone.
  pub publish_events-outside :
      (es : List EventEnvelope) (k : SimulationKernel W)
      → (r : Result (Unit {0})) × (w : W) × (publish_events es k ≡ (r, record k { outside = w }))
  unfolding publish_events
  publish_events-outside [] k = (ok tt, k.outside, refl)
  publish_events-outside (e ∷ es) k =
      published-outside (publish k.event_bus e k.outside) (publish_events es) k
        (publish_events-outside es)

  -- The clock at the due time of the head of the queue.
  pub set_now-IsConsistent :
      (k : SimulationKernel W) (e : ScheduledEvent) (rest : List ScheduledEvent)
      → k.scheduler.items ≡ e ∷ rest
      → IsConsistent k
      → IsConsistent (set_now e.due_time k)
  set_now-IsConsistent k e rest h c =
      let future : All (λ (x : ScheduledEvent). k.run.now ≤ x.due_time) (e ∷ rest) =
        rw h at c.future in
      let sorted : Order.IsSorted (e ∷ rest) = rw h at c.queue.sorted in
      record {
        log = c.log;
        counted = c.counted;
        past = IsPast-mono k.run.now e.due_time k.events future.0 c.past;
        started = omega (arith, c.started);
        future = rw h (omega arith, All-due_le e rest sorted.0);
        queue = c.queue;
        word = c.word;
        systems_draw = c.systems_draw;
        actions_draw = c.actions_draw;
      }

  -- The event that the dispatch was for is taken off, and its outcome recorded.
  consume_lem :
      (target : ℕ) (e : ScheduledEvent) (rest : List ScheduledEvent) (o : SystemEventOutcome)
      (k : SimulationKernel W)
      → k.scheduler.items ≡ e ∷ rest
      → e.due_time ≤ target
      → consume target e o k ≡ (
        ok tt,
        record k {
          scheduler = record k.scheduler { items = rest };
          system_event_outcomes = k.system_event_outcomes ++ o ∷ [];
        },
      )
  unfolding consume
  consume_lem target e rest o k h d =
      rw (pop_next_due-head target k.scheduler e rest h d, same_event_refl e)

  pub move_clock_lem :
      (t : ℕ) (k : SimulationKernel W) → k.run.now ≤ t → move_clock (pos t) k ≡ (ok tt, set_now t k)
  unfolding move_clock
  move_clock_lem t k h =
      let e : advance_clock (pos t) k.run.now ≡ ok t = unfold advance_clock in ground arith in rw e

-- The kernel after a round that dispatched `e`, the head of its queue.
abbrev pub after_step :
    {W : Type 0}
    → ScheduledEvent
    → List ScheduledEvent
    → SystemEventOutcome
    → Prepared
    → DeterministicRng
    → W
    → SimulationKernel W
    → SimulationKernel W
after_step e rest o p rng w k = record (after_commit p rng (set_now e.due_time k)) {
  scheduler = record k.scheduler { items = rest };
  system_event_outcomes = k.system_event_outcomes ++ o ∷ [];
  outside = w;
}

-- How a round ends: it raises and leaves the kernel as it was, or it commits one prepared plan at
-- the event's due time, takes the event off, records its outcome and publishes its events; a
-- subscriber may then raise.
pub data StepEnds {W : Type 0} (sha256 : JsonObject → String) (e : ScheduledEvent)
    (rest : List ScheduledEvent) (k : SimulationKernel W)
    (out : Result SystemEventOutcome × SimulationKernel W) : Type 0 where
  refused : (x : Error) → out ≡ (err x, k) → StepEnds sha256 e rest k out
  stepped :
      (handler_id : String) (plan : TransitionPlan) (rng : DeterministicRng) (p : Prepared) (w : W)
      (published : Result (Unit {0}))
      → IsWord rng
      → prepare sha256 plan (system_source e) (set_now e.due_time k) ≡ ok p
      → out ≡ (
          continue published
            (λ _ (l : SimulationKernel W). (ok (make_outcome e handler_id p), l))
            (after_step e rest (make_outcome e handler_id p) p rng w k))
      → StepEnds sha256 e rest k out

module _ {W : Type 0} (sha256 : JsonObject → String) where
  -- A round of the loop in a consistent kernel, for the head of its queue.
  pub advance_step-StepEnds :
      (target : ℕ) (e : ScheduledEvent) (rest : List ScheduledEvent) (k : SimulationKernel W)
      → k.scheduler.items ≡ e ∷ rest
      → e.due_time ≤ target
      → IsConsistent k
      → StepEnds sha256 e rest k (advance_step sha256 target e k)
  unfolding advance_step guarded_dispatch ◌>>=◌
  advance_step-StepEnds target e rest k h d c =
      let future : All (λ (x : ScheduledEvent). k.run.now ≤ x.due_time) (e ∷ rest) =
        rw h at c.future in
      let c' = set_now-IsConsistent k e rest h c in
      let moved = move_clock_lem e.due_time k future.0 in
      elim (dispatch-DispatchEnds sha256 e (set_now e.due_time k) c') [
        | inl (x, raised) ↦ refused x (rw moved (rw raised refl))
        | inr (id, plan, rng, p, word, prepared, wrote) ↦
            let o = make_outcome e id p in
            let consumed =
              consume_lem target e rest o (after_commit p rng (set_now e.due_time k)) h d in
            let (r, w, out) =
              publish_events-outside p.emitted_events (after_step e rest o p rng k.outside k) in
            stepped id plan rng p w r word prepared
              (rw moved (rw wrote (rw consumed (rw out refl))))
      ]
