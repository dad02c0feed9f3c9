-- ===== src/Core/Kernel/Advance.antt =====
-- core/kernel.py: the dispatch of system events, and the loop of `advance_to` over those due.
use journey_map.Prelude.{
  ℕ, zero, suc, String, Bool, true, false, ◌&&◌, Option, none, some, List, [], ◌∷◌, ◌++◌, length,
  map, ◌==◌, ◌==ℕ◌,
}
use journey_map.Prelude.Exec.{
  Result, ok, err, runtime_error, value_error, raise_if, ◌>>=◌ as ◌>>=ᵣ◌,
}
use journey_map.Prelude.State.{Exec, pure, gets, reads, modify, finally_do, ◌>>=◌, ◌>>◌}
use journey_map.Prelude.Int.{ℤ, pos, pos_part, ltb_ℤ, eqb_ℤ}
use journey_map.Json.{JsonObject, same_object}
use journey_map.Core.Rng
use journey_map.Core.Rng.{DeterministicRng}
use journey_map.Core.Run.{scheduled_event, advance_clock}
use journey_map.Core.Scheduler
use journey_map.Core.Scheduler.{ScheduledEvent, peek_next_due, pop_next_due}
use journey_map.Core.Events.{EventEnvelope, publish}
use journey_map.Core.Handlers.{TransitionPlan, SystemEventOutcome, SystemEventHandler}
use journey_map.Core.Handlers.Registry
use journey_map.Core.Kernel.State.{
  SimulationKernel, validation_context, resolution_context, ensure_available, set_active, set_now,
}
use journey_map.Core.Kernel.Commit.{Prepared, Source, commit_plan}

-- `!=` of two scheduled events, which are compared field by field.
unfoldable pub same_event : ScheduledEvent → ScheduledEvent → Bool
same_event a b =
    a.scheduled_event_id == b.scheduled_event_id
    && a.run_id == b.run_id
    && a.due_time ==ℕ b.due_time
    && eqb_ℤ a.priority b.priority
    && a.insertion_sequence ==ℕ b.insertion_sequence
    && a.event_type == b.event_type
    && eqb_ℤ a.schema_version b.schema_version
    && same_object a.payload b.payload
    && a.correlation_id == b.correlation_id

abbrev is_same : Option ScheduledEvent → ScheduledEvent → Bool
is_same none scheduled = false
is_same (some e) scheduled = same_event e scheduled

unfoldable pub system_source : ScheduledEvent → Source
system_source scheduled = record {
  source_kind = scheduled_event;
  source_ref = scheduled.scheduled_event_id;
  causation_id = scheduled.scheduled_event_id;
  correlation_id = scheduled.correlation_id;
}

unfoldable pub make_outcome : ScheduledEvent → String → Prepared → SystemEventOutcome
make_outcome scheduled handler_id p = record {
  scheduled_event_id = scheduled.scheduled_event_id;
  handler_id = handler_id;
  transition = p.transition;
  state_digest_after = p.digest_after;
  emitted_event_ids = map (λ e. e.event_id) p.emitted_events;
}

module _ {W : Type 0} where
  -- The part of `_dispatch_system_event` before the commit, which writes nothing.
  unfoldable pub resolve_system_event :
      ScheduledEvent → SimulationKernel W → Result (String × TransitionPlan × DeterministicRng)
  resolve_system_event scheduled k =
      Registry.get scheduled.event_type scheduled.schema_version k.system_event_registry
      >>=ᵣ λ (handler : SystemEventHandler). Scheduler.detached scheduled >>=ᵣ λ copy.
          validation_context k >>=ᵣ λ context. handler.validate copy context >>=ᵣ λ _.
          Rng.clone k.run.rng >>=ᵣ λ rng. Scheduler.detached scheduled >>=ᵣ λ copy'.
          resolution_context rng k >>=ᵣ λ resolution.
          handler.resolve copy' resolution >>=ᵣ λ planned.
          ok (handler.handler_id, planned.0, planned.1)

  -- Goes on with the next event, unless a subscriber raised.
  unfoldable pub published :
      Result (Unit {0}) × W
      → Exec (SimulationKernel W) (Unit {0})
      → Exec (SimulationKernel W) (Unit {0})
  published (err e, w) later k = (err e, record k { outside = w })
  published (ok _, w) later k = later (record k { outside = w })

  -- `_publish_events`
  unfoldable pub publish_events : List EventEnvelope → Exec (SimulationKernel W) (Unit {0})
  unfolding published
  publish_events [] k = (ok tt, k)
  publish_events (event ∷ events) k =
      published (publish k.event_bus event k.outside) (publish_events events) k

  moved : Result ℕ → Exec (SimulationKernel W) (Unit {0})
  moved (err e) k = (err e, k)
  moved (ok now) k = (ok tt, set_now now k)

  -- `clock.advance_to`
  unfoldable pub move_clock : ℤ → Exec (SimulationKernel W) (Unit {0})
  unfolding moved advance_clock
  move_clock target k = moved (advance_clock target k.run.now) k

  -- After the dispatch: the event is taken off the heap, and its outcome recorded.
  recorded : Bool → SystemEventOutcome → Exec (SimulationKernel W) (Unit {0})
  recorded false outcome k = (err runtime_error, k)
  recorded true outcome k =
      (ok tt, record k { system_event_outcomes = k.system_event_outcomes ++ outcome ∷ [] })

  unfoldable pub consume :
      ℕ → ScheduledEvent → SystemEventOutcome → Exec (SimulationKernel W) (Unit {0})
  unfolding recorded
  consume target scheduled outcome k =
      let (consumed, scheduler) = pop_next_due target k.scheduler in
      recorded (is_same consumed scheduled) outcome (record k { scheduler = scheduler })

  -- Goes on with the next round, unless this one raised.
  unfoldable pub resume :
      List SystemEventOutcome
      → (List SystemEventOutcome → Exec (SimulationKernel W) (List SystemEventOutcome))
      → Result SystemEventOutcome × SimulationKernel W
      → Result (List SystemEventOutcome) × SimulationKernel W
  resume outcomes next (err e, k) = (err e, k)
  resume outcomes next (ok outcome, k) = next (outcomes ++ outcome ∷ []) k

  -- A round for the event that a peek shows; the loop ends where it shows none.
  unfoldable pub round :
      List SystemEventOutcome
      → (List SystemEventOutcome → Exec (SimulationKernel W) (List SystemEventOutcome))
      → (ScheduledEvent → Exec (SimulationKernel W) SystemEventOutcome)
      → Option ScheduledEvent
      → Exec (SimulationKernel W) (List SystemEventOutcome)
  unfolding resume
  round outcomes next step none k = (ok outcomes, k)
  round outcomes next step (some scheduled) k = resume outcomes next (step scheduled k)

module _ {W : Type 0} (sha256 : JsonObject → String) where
  unfoldable pub committed :
      ScheduledEvent
      → String × TransitionPlan × DeterministicRng
      → Exec (SimulationKernel W) (SystemEventOutcome × List EventEnvelope)
  committed scheduled (handler_id, plan, rng) = do
    prepared ← commit_plan sha256 plan (system_source scheduled) rng
    pure (make_outcome scheduled handler_id prepared, prepared.emitted_events)

  unfoldable pub dispatch_system_event :
      ScheduledEvent → Exec (SimulationKernel W) (SystemEventOutcome × List EventEnvelope)
  unfolding committed
  dispatch_system_event scheduled = do
    resolved ← reads (resolve_system_event scheduled)
    committed scheduled resolved

  -- `try: dispatch except Exception: clock._restore(time_before); raise`
  restoring :
      ℕ
      → Result (SystemEventOutcome × List EventEnvelope) × SimulationKernel W
      → Result (SystemEventOutcome × List EventEnvelope) × SimulationKernel W
  restoring time_before (ok a, k) = (ok a, k)
  restoring time_before (err e, k) = (err e, set_now time_before k)

  unfoldable pub guarded_dispatch :
      ScheduledEvent → ℕ → Exec (SimulationKernel W) (SystemEventOutcome × List EventEnvelope)
  unfolding restoring
  guarded_dispatch scheduled time_before k =
      restoring time_before (dispatch_system_event scheduled k)

  -- The body of the loop.
  unfoldable pub advance_step : ℕ → ScheduledEvent → Exec (SimulationKernel W) SystemEventOutcome
  advance_step target scheduled = do
    time_before ← gets (λ k. k.run.now)
    move_clock (pos scheduled.due_time)
    dispatched ← guarded_dispatch scheduled time_before
    consume target scheduled dispatched.0
    publish_events dispatched.1
    pure dispatched.0

  -- Each round takes an event off the heap, so the number of its items is fuel enough.
  unfoldable pub advance_loop :
      ℕ → ℕ → List SystemEventOutcome → Exec (SimulationKernel W) (List SystemEventOutcome)
  unfolding round
  advance_loop zero target outcomes k = (ok outcomes, k)
  advance_loop (suc fuel) target outcomes k =
      round outcomes (advance_loop fuel target) (advance_step target)
        (peek_next_due target k.scheduler) k

  -- `_advance_to`
  unfoldable pub advance_inner : ℤ → Exec (SimulationKernel W) (List SystemEventOutcome)
  advance_inner target = do
    reads (λ k. raise_if (ltb_ℤ target (pos k.run.now)) value_error)
    items ← gets (λ k. length k.scheduler.items)
    outcomes ← advance_loop items (pos_part target) []
    move_clock target
    pure outcomes

  -- `advance_to`
  unfoldable pub advance_to : ℤ → Exec (SimulationKernel W) (List SystemEventOutcome)
  advance_to target = do
    reads ensure_available
    modify (set_active true)
    finally_do (advance_inner target) (set_active false)
