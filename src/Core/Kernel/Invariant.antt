-- ===== src/Core/Kernel/Invariant.antt =====
-- What stays true of a kernel: its log, its queue, its clock and its generator.
use mathlib.Core.Path.{subst}
use journey_map.Prelude.{◌+◌, ◌≤◌, String, ◌≡◌, arith, length, length-append, All, All-append}
use journey_map.Prelude.Int.{ℤ, pos_part}
use journey_map.Prelude.Exec.{Result, ok, >>=-eq-ok, ok-injective}
use journey_map.Json.{JsonObject, state_digest}
use journey_map.Core.Rng.{DeterministicRng, IsWord}
use journey_map.Core.Scheduler.{ScheduledEvent}
use journey_map.Core.Scheduler.Order as Order
use journey_map.Core.Handlers.{TransitionPlan, SystemEventHandler, ActionHandler, ResolutionContext}
use journey_map.Core.Kernel.State.{SimulationKernel}
use journey_map.Core.Kernel.Commit.{Prepared, Source, prepare, candidate_state, envelopes}
use journey_map.Core.Kernel.Log.{IsLog, IsPast, IsLog-append, envelopes-IsLog}
use journey_map.Core.Kernel.Atomic.{after_commit}
use journey_map.Core.Run.{pending_transition}

-- A handler that is given a generator with a 64-bit state gives back one: `DeterministicRng` has
-- no method that leaves another.
abbrev pub DrawsWords :
    {Input : Type 0}
    → (Input → ResolutionContext → Result (TransitionPlan × DeterministicRng))
    → Type 0
DrawsWords {Input} resolve =
    (input : Input) (context : ResolutionContext) (plan : TransitionPlan) (rng : DeterministicRng)
    → IsWord context.rng
    → resolve input context ≡ ok (plan, rng)
    → IsWord rng

pub record IsConsistent {W : Type 0} (k : SimulationKernel W) : Type 0 where
  -- The log is the run's, numbered from one without a gap, in the order of time.
  pub log : IsLog k.run.manifest.run_id 1 (pos_part k.run.manifest.start_time) k.events
  pub counted : k.run.event_sequence ≡ length k.events
  -- Nothing in it lies in the future, and nothing that is scheduled in the past.
  pub past : IsPast k.run.now k.events
  pub started : pos_part k.run.manifest.start_time ≤ k.run.now
  pub future : All (λ (e : ScheduledEvent). k.run.now ≤ e.due_time) k.scheduler.items
  pub queue : Order.IsValid k.scheduler
  pub word : IsWord k.run.rng
  pub systems_draw :
      All
        (λ (e : (String × ℤ) × SystemEventHandler). DrawsWords e.1.resolve)
        k.system_event_registry
  pub actions_draw :
      All (λ (e : (String × ℤ) × ActionHandler). DrawsWords e.1.resolve) k.action_registry

module _ {W : Type 0} (sha256 : JsonObject → String) where
  prepare-IsLog :
      (plan : TransitionPlan) (source : Source) (k : SimulationKernel W) (p : Prepared)
      → prepare sha256 plan source k ≡ ok p
      → IsLog k.run.manifest.run_id (k.run.event_sequence + 1) k.run.now p.emitted_events
        × IsPast k.run.now p.emitted_events
  unfolding prepare
  prepare-IsLog plan source k p h =
      let (candidate, _, h₁) = >>=-eq-ok (candidate_state plan k.state) _ h in
      let (digest, _, h₂) = >>=-eq-ok (state_digest sha256 candidate) _ h₁ in
      let (t, got, h₃) =
        >>=-eq-ok
          (pending_transition source.source_kind source.source_ref source.causation_id
            source.correlation_id k.run)
          _ h₂ in
      let (es, made, h₄) = >>=-eq-ok (envelopes 1 plan.events t k.run) _ h₃ in
      subst
        (λ (q : Prepared).
          IsLog k.run.manifest.run_id (k.run.event_sequence + 1) k.run.now q.emitted_events
          × IsPast k.run.now q.emitted_events)
        (ok-injective h₄) (envelopes-IsLog 1 plan.events t k.run es made)

  -- A commit keeps a kernel consistent.
  pub after_commit-IsConsistent :
      (plan : TransitionPlan) (source : Source) (rng : DeterministicRng) (k : SimulationKernel W)
      (p : Prepared)
      → IsWord rng
      → prepare sha256 plan source k ≡ ok p
      → IsConsistent k
      → IsConsistent (after_commit p rng k)
  after_commit-IsConsistent plan source rng k p word h c =
      let (new, now) = prepare-IsLog plan source k p h in
      record {
        log =
            IsLog-append k.run.manifest.run_id 1 (pos_part k.run.manifest.start_time) k.run.now
              (k.run.event_sequence + 1) k.events p.emitted_events c.started
              (omega (arith, c.counted)) c.log c.past new;
        counted = omega (arith, c.counted, length-append k.events p.emitted_events);
        past = All-append _ k.events p.emitted_events c.past now;
        started = c.started;
        future = c.future;
        queue = c.queue;
        word = word;
        systems_draw = c.systems_draw;
        actions_draw = c.actions_draw;
      }
