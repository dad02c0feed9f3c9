-- ===== src/Core/Kernel/Loop.antt =====
-- `advance_to` processes exactly the events that are due, and ends.
use mathlib.Core.List.{append_assoc, append-nil}
use journey_map.Prelude.{
  ℕ, zero, suc, ◌+◌, ◌≤◌, ◌<◌, String, ◌≡◌, refl, sym, ap, ◌∙◌, inl, inr, List, ◌++◌, [], ◌∷◌,
  arith, All, All-empty, length,
}
use journey_map.Prelude.Exec.{Result, ok, err}
use journey_map.Json.{JsonObject}
use journey_map.Core.Scheduler.{ScheduledEvent}
use journey_map.Core.Scheduler.Order.{peek_next_due-cases}
use journey_map.Core.Handlers.{SystemEventOutcome}
use journey_map.Core.Kernel.State.{SimulationKernel}
use journey_map.Core.Kernel.Advance.{advance_step, advance_loop, make_outcome, resume}
use journey_map.Core.Kernel.Invariant.{IsConsistent}
use journey_map.Core.Kernel.Step.{StepEnds, refused, stepped, advance_step-StepEnds, after_step}
use journey_map.Core.Kernel.Follows.{Follows, Follows-refl, Follows-trans, after_step-Follows}

-- `more` are the outcomes between `k` and `l`, one transition for each; no action ended.
pub record Processed {W : Type 0} (target : ℕ) (more : List SystemEventOutcome)
    (k l : SimulationKernel W) : Type 0 where
  pub outcomes : l.system_event_outcomes ≡ k.system_event_outcomes ++ more
  pub transitions : l.run.transition_sequence ≡ k.run.transition_sequence + length more
  pub results : l.action_results ≡ k.action_results
  pub in_time : l.run.now ≤ target

-- How the loop ends from `k`, after `done`: it raises in a kernel that follows `k`, or it has
-- processed all that was due.
abbrev pub LoopEnds :
    {W : Type 0}
    → ℕ
    → List SystemEventOutcome
    → SimulationKernel W
    → Result (List SystemEventOutcome) × SimulationKernel W
    → Type 0
LoopEnds target done k (err e, l) = Follows k l
LoopEnds target done k (ok outcomes, l) =
    Follows k l
    × All (λ (x : ScheduledEvent). target < x.due_time) l.scheduler.items
    × ((more : List SystemEventOutcome) × (outcomes ≡ done ++ more) × Processed target more k l)

module _ {W : Type 0} (sha256 : JsonObject → String) where
  LoopEnds-now :
      (target : ℕ) (done : List SystemEventOutcome) (k : SimulationKernel W)
      → IsConsistent k
      → k.run.now ≤ target
      → All (λ (x : ScheduledEvent). target < x.due_time) k.scheduler.items
      → LoopEnds target done k (ok done, k)
  LoopEnds-now target done k c t late = (
    Follows-refl k c,
    late,
    (
      [],
      sym (append-nil done),
      record {
        outcomes = sym (append-nil k.system_event_outcomes);
        transitions = omega arith;
        results = refl;
        in_time = t;
      },
    ),
  )

  LoopEnds-later :
      (target : ℕ) (done : List SystemEventOutcome) (o : SystemEventOutcome)
      (k l : SimulationKernel W) (out : Result (List SystemEventOutcome) × SimulationKernel W)
      → Follows k l
      → l.system_event_outcomes ≡ k.system_event_outcomes ++ o ∷ []
      → l.run.transition_sequence ≡ k.run.transition_sequence + 1
      → l.action_results ≡ k.action_results
      → LoopEnds target (done ++ o ∷ []) l out
      → LoopEnds target done k out
  LoopEnds-later target done o k l (err e, m) f eo et er g = Follows-trans k l m f g
  LoopEnds-later target done o k l (ok outs, m) f eo et er (g, late, (more, eq, p)) = (
    Follows-trans k l m f g,
    late,
    (
      o ∷ more,
      eq ∙ append_assoc done (o ∷ []) more,
      record {
        outcomes =
            p.outcomes
            ∙ ap (λ os. os ++ more) eo
            ∙ append_assoc k.system_event_outcomes (o ∷ []) more;
        transitions = omega (arith, p.transitions, et);
        results = p.results ∙ er;
        in_time = p.in_time;
      },
    ),
  )

  resume-LoopEnds :
      (fuel target : ℕ) (done : List SystemEventOutcome) (e : ScheduledEvent)
      (rest : List ScheduledEvent) (k : SimulationKernel W)
      (out : Result SystemEventOutcome × SimulationKernel W)
      → k.scheduler.items ≡ e ∷ rest
      → e.due_time ≤ target
      → IsConsistent k
      → StepEnds sha256 e rest k out
      → ((o : SystemEventOutcome) (l : SimulationKernel W)
          → l.scheduler.items ≡ rest
          → l.run.now ≤ target
          → IsConsistent l
          → LoopEnds target (done ++ o ∷ []) l (advance_loop sha256 fuel target (done ++ o ∷ []) l))
      → LoopEnds target done k (resume done (advance_loop sha256 fuel target) out)
  unfolding resume make_outcome
  resume-LoopEnds fuel target done e rest k out h d c (refused x raised) loop =
      rw raised (Follows-refl k c)
  resume-LoopEnds fuel target done e rest k out h d c
        (stepped id plan rng p w (err x) word prepared ends) loop =
      rw ends (
        after_step-Follows sha256 e rest (make_outcome e id p) plan p rng w k h word prepared refl
          c)
  resume-LoopEnds fuel target done e rest k out h d c
        (stepped id plan rng p w (ok _) word prepared ends) loop =
      let o = make_outcome e id p in
      let l = after_step e rest o p rng w k in
      let f = after_step-Follows sha256 e rest o plan p rng w k h word prepared refl c in
      rw ends (LoopEnds-later target done o k l _ f refl refl refl (loop o l refl d f.consistent))

  -- From a consistent kernel whose clock is not past the target, and with at least as much fuel as the
  -- queue has items, the loop ends by its test, never by its fuel: it raises in a kernel that follows,
  -- or it processes all that is due.
  pub advance_loop-LoopEnds :
      (fuel target : ℕ) (done : List SystemEventOutcome) (k : SimulationKernel W)
      → length k.scheduler.items ≤ fuel
      → k.run.now ≤ target
      → IsConsistent k
      → LoopEnds target done k (advance_loop sha256 fuel target done k)
  unfolding advance_loop
  advance_loop-LoopEnds zero target done k n t c =
      LoopEnds-now target done k c t (All-empty _ k.scheduler.items (omega arith))
  advance_loop-LoopEnds (suc fuel) target done k n t c =
      elim (peek_next_due-cases target k.scheduler c.queue) [
        | inl (idle, late) ↦ rw idle (LoopEnds-now target done k c t late)
        | inr (e, rest, found, items, due) ↦
            let n' : length (e ∷ rest) ≤ suc fuel = rw items at n in
            rw found (
              resume-LoopEnds fuel target done e rest k (advance_step sha256 target e k) items due c
                (advance_step-StepEnds sha256 target e rest k items due c)
                (λ o l items' t' c'.
                  advance_loop-LoopEnds fuel target (done ++ o ∷ []) l (rw items' (omega arith)) t'
                    c'))
      ]
