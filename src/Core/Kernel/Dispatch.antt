-- ===== src/Core/Kernel/Dispatch.antt =====
-- A system event is dispatched whole, or the kernel is left as it was.
use mathlib.Core.Path.{subst}
use journey_map.Prelude.{String, ◌≡◌, refl, sym, ap, ◌∙◌, ◌⊎◌, inl, inr, List, arith}
use journey_map.Prelude.Exec.{Error, Result, ok, err, >>=-eq-ok, ok-injective}
use journey_map.Prelude.State.{◌>>=◌, continue}
use journey_map.Json.{JsonObject}
use journey_map.Core.Rng
use journey_map.Core.Rng.{DeterministicRng, IsWord, clone_lem}
use journey_map.Core.Scheduler
use journey_map.Core.Scheduler.{ScheduledEvent}
use journey_map.Core.Events.{EventEnvelope}
use journey_map.Core.Handlers.{
  TransitionPlan, SystemEventHandler, SystemEventOutcome, ResolutionContext,
}
use journey_map.Core.Handlers.Registry
use journey_map.Core.Handlers.Registry.{get-All}
use journey_map.Core.Kernel.State.{SimulationKernel, validation_context, resolution_context}
use journey_map.Core.Kernel.Commit.{Prepared, prepare}
use journey_map.Core.Kernel.Advance.{
  resolve_system_event, system_source, make_outcome, committed, dispatch_system_event,
}
use journey_map.Core.Kernel.Atomic.{after_commit, commit_plan-CommitEnds}
use journey_map.Core.Kernel.Invariant.{IsConsistent, DrawsWords}

module _ {W : Type 0} where
  pub resolution_context-rng :
      (rng : DeterministicRng) (k : SimulationKernel W) (context : ResolutionContext)
      → resolution_context rng k ≡ ok context
      → context.rng ≡ rng
  unfolding resolution_context
  resolution_context-rng rng k context h = ground arith

  -- The generator that a resolved system event gives back has a 64-bit state.
  resolve_system_event-IsWord :
      (scheduled : ScheduledEvent) (k : SimulationKernel W) (id : String) (plan : TransitionPlan)
      (rng : DeterministicRng)
      → IsConsistent k
      → resolve_system_event scheduled k ≡ ok (id, plan, rng)
      → IsWord rng
  unfolding resolve_system_event
  resolve_system_event-IsWord scheduled k id plan rng c h =
      let (handler, found, h₁) =
        >>=-eq-ok
          (Registry.get scheduled.event_type scheduled.schema_version k.system_event_registry) _
          h in
      let draws : DrawsWords handler.resolve =
        get-All (λ (g : SystemEventHandler). DrawsWords g.resolve) scheduled.event_type
          scheduled.schema_version k.system_event_registry handler c.systems_draw found in
      let (copy, _, h₂) = >>=-eq-ok (Scheduler.detached scheduled) _ h₁ in
      let (context, _, h₃) = >>=-eq-ok (validation_context k) _ h₂ in
      let (_, _, h₄) = >>=-eq-ok (handler.validate copy context) _ h₃ in
      let (rng₀, cloned, h₅) = >>=-eq-ok (Rng.clone k.run.rng) _ h₄ in
      let (copy', _, h₆) = >>=-eq-ok (Scheduler.detached scheduled) _ h₅ in
      let (resolution, built, h₇) = >>=-eq-ok (resolution_context rng₀ k) _ h₆ in
      let (planned, resolved, h₈) = >>=-eq-ok (handler.resolve copy' resolution) _ h₇ in
      let same : resolution.rng ≡ k.run.rng =
        resolution_context-rng rng₀ k resolution built
        ∙ ok-injective (sym cloned ∙ clone_lem k.run.rng c.word) in
      let word : IsWord resolution.rng = subst IsWord (sym same) c.word in
      subst IsWord (ap (λ (t : String × TransitionPlan × DeterministicRng). t.2) (ok-injective h₈))
        (draws copy' resolution planned.0 planned.1 word resolved)

-- How a dispatch ends: with nothing written, or with one commit of a prepared plan.
abbrev pub DispatchEnds :
    {W : Type 0}
    → (JsonObject → String)
    → ScheduledEvent
    → SimulationKernel W
    → Result (SystemEventOutcome × List EventEnvelope) × SimulationKernel W
    → Type 0
DispatchEnds sha256 scheduled k out =
    ((e : Error) × (out ≡ (err e, k)))
    ⊎ ((handler_id : String) × (plan : TransitionPlan) × (rng : DeterministicRng) × (p : Prepared)
        × IsWord rng
        × (prepare sha256 plan (system_source scheduled) k ≡ ok p)
        × (out
            ≡ (ok (make_outcome scheduled handler_id p, p.emitted_events), after_commit p rng k)))

module _ {W : Type 0} (sha256 : JsonObject → String) where
  committed-DispatchEnds :
      (scheduled : ScheduledEvent) (k : SimulationKernel W) (id : String) (plan : TransitionPlan)
      (rng : DeterministicRng)
      → IsWord rng
      → DispatchEnds sha256 scheduled k (committed sha256 scheduled (id, plan, rng) k)
  unfolding committed ◌>>=◌
  committed-DispatchEnds scheduled k id plan rng word =
      elim (commit_plan-CommitEnds sha256 plan (system_source scheduled) rng k word) [
        | inl (e, raised) ↦ inl (e, rw raised)
        | inr (p, prepared, wrote) ↦ inr (id, plan, rng, p, word, prepared, rw wrote)
      ]

  resolved-DispatchEnds :
      (scheduled : ScheduledEvent) (k : SimulationKernel W)
      (r : Result (String × TransitionPlan × DeterministicRng))
      → IsConsistent k
      → resolve_system_event scheduled k ≡ r
      → DispatchEnds sha256 scheduled k (continue r (committed sha256 scheduled) k)
  resolved-DispatchEnds scheduled k (err e) c h = inl (e, refl)
  resolved-DispatchEnds scheduled k (ok (id, plan, rng)) c h =
      committed-DispatchEnds scheduled k id plan rng
        (resolve_system_event-IsWord scheduled k id plan rng c h)

  -- In a consistent kernel the dispatch of a system event either raises and leaves the kernel as
  -- it was, or commits one prepared plan and returns its outcome and its events.
  pub dispatch-DispatchEnds :
      (scheduled : ScheduledEvent) (k : SimulationKernel W)
      → IsConsistent k
      → DispatchEnds sha256 scheduled k (dispatch_system_event sha256 scheduled k)
  unfolding dispatch_system_event ◌>>=◌
  dispatch-DispatchEnds scheduled k c =
      resolved-DispatchEnds scheduled k (resolve_system_event scheduled k) c refl
