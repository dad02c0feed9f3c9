-- ===== src/Core/Kernel/Time.antt =====
-- What `advance_to` promises.
use mathlib.Core.List.{append-nil}
use journey_map.Prelude.{
  ℕ, ◌≤◌, String, ◌⊎◌, ◌<◌, ◌≡◌, refl, sym, inl, inr, Bool, true, false, List, [], ◌∷◌, arith, All,
  length, Bool-cases, not,
}
use journey_map.Prelude.Int.{pos, ltb_ℤ}
use journey_map.Prelude.Exec.{
  Error, Result, ok, err, runtime_error, reentrant_mutation, raise_if, ◌>>◌,
}
use journey_map.Core.Run.{is_running}
use journey_map.Prelude.State.{continue, ◌>>=◌}
use journey_map.Json.{JsonObject}
use journey_map.Core.Scheduler.{ScheduledEvent}
use journey_map.Core.Handlers.{SystemEventOutcome}
use journey_map.Core.Kernel.State.{SimulationKernel, set_now, set_active, ensure_available}
use journey_map.Core.Kernel.Advance.{advance_loop, advance_inner, advance_to, move_clock}
use journey_map.Core.Kernel.Invariant.{IsConsistent}
use journey_map.Core.Kernel.Log.{IsPast-mono}
use journey_map.Core.Kernel.Step.{move_clock_lem}
use journey_map.Core.Kernel.Follows.{Follows, Follows-refl, Follows-trans}
use journey_map.Core.Kernel.Loop.{LoopEnds, Processed, advance_loop-LoopEnds}

-- How `advance_to target` ends from `k`: it raises in a kernel that follows `k`, or the clock
-- stands at the target, nothing is due any more, and each outcome returned is one transition.
abbrev pub AdvanceEnds :
    {W : Type 0}
    → ℕ
    → SimulationKernel W
    → Result (List SystemEventOutcome) × SimulationKernel W
    → Type 0
AdvanceEnds target k (err e, l) = Follows k l
AdvanceEnds target k (ok outcomes, l) =
    Follows k l
    × (l.run.now ≡ target)
    × All (λ (x : ScheduledEvent). target < x.due_time) l.scheduler.items
    × Processed target outcomes k l

All-le_of_lt :
    (t : ℕ) (es : List ScheduledEvent) → All (λ x. t < x.due_time) es → All (λ x. t ≤ x.due_time) es
All-le_of_lt t [] h = tt
All-le_of_lt t (e ∷ es) h = (omega arith, All-le_of_lt t es h.1)

module _ {W : Type 0} where
  pub set_active-IsConsistent :
      (b : Bool) (k : SimulationKernel W) → IsConsistent k → IsConsistent (set_active b k)
  set_active-IsConsistent b k c = record {
    log = c.log;
    counted = c.counted;
    past = c.past;
    started = c.started;
    future = c.future;
    queue = c.queue;
    word = c.word;
    systems_draw = c.systems_draw;
    actions_draw = c.actions_draw;
  }

  pub ensure_available-cases :
      (k : SimulationKernel W)
      → ((e : Error) × (ensure_available k ≡ err e))
        ⊎ ((ensure_available k ≡ ok tt)
            × (is_running k.run.status ≡ true)
            × (k.transition_active ≡ false))
  unfolding ensure_available
  ensure_available-cases k = cases (is_running k.run.status) k.transition_active
    where
      cases :
          (running active : Bool)
          → ((e : Error) × ((raise_if (not running) runtime_error
                  >> raise_if active reentrant_mutation)
                ≡ err e))
            ⊎ (((raise_if (not running) runtime_error >> raise_if active reentrant_mutation)
                  ≡ ok tt)
                × (running ≡ true)
                × (active ≡ false))
      cases true true = inl (reentrant_mutation, refl)
      cases true false = inr (refl, refl, refl)
      cases false active = inl (runtime_error, refl)

  -- The clock may move on to a time before which nothing is due.
  set_now-Follows :
      (t : ℕ) (k : SimulationKernel W)
      → k.run.now ≤ t
      → All (λ (x : ScheduledEvent). t < x.due_time) k.scheduler.items
      → IsConsistent k
      → Follows k (set_now t k)
  set_now-Follows t k h late c = record {
    consistent = record {
      log = c.log;
      counted = c.counted;
      past = IsPast-mono k.run.now t k.events h c.past;
      started = omega (arith, c.started);
      future = All-le_of_lt t k.scheduler.items late;
      queue = c.queue;
      word = c.word;
      systems_draw = c.systems_draw;
      actions_draw = c.actions_draw;
    };
    later = h;
    same_run = refl;
    same_status = refl;
    same_guard = refl;
    added = [];
    grown = sym (append-nil k.events);
    outcomes = [];
    outcomes_grown = sym (append-nil k.system_event_outcomes);
    results = [];
    results_grown = sym (append-nil k.action_results);
    named = λ n after before. absurd (omega (arith, after, before));
    balanced = refl;
  }

  -- The guard goes up and comes down again round a call.
  pub guarded-Follows :
      (k l : SimulationKernel W)
      → k.transition_active ≡ false
      → Follows (set_active true k) l
      → Follows k (set_active false l)
  guarded-Follows k l h f = record {
    consistent = set_active-IsConsistent false l f.consistent;
    later = f.later;
    same_run = f.same_run;
    same_status = f.same_status;
    same_guard = sym h;
    added = f.added;
    grown = f.grown;
    outcomes = f.outcomes;
    outcomes_grown = f.outcomes_grown;
    results = f.results;
    results_grown = f.results_grown;
    named = f.named;
    balanced = f.balanced;
  }

  -- The end of `_advance_to`, after the loop.
  ended :
      ℕ
      → Result (List SystemEventOutcome) × SimulationKernel W
      → Result (List SystemEventOutcome) × SimulationKernel W
  ended target (r, l) = continue r (λ outs. move_clock (pos target) >>= λ _ m. (ok outs, m)) l

  ended-AdvanceEnds :
      (target : ℕ) (k : SimulationKernel W)
      (out : Result (List SystemEventOutcome) × SimulationKernel W)
      → LoopEnds target [] k out
      → AdvanceEnds target k (ended target out)
  unfolding ended ◌>>=◌
  ended-AdvanceEnds target k (err e, l) f = f
  ended-AdvanceEnds target k (ok outs, l) (f, late, (more, same, p)) =
      rw (move_clock_lem target l p.in_time) (
        Follows-trans k l (set_now target l) f
            (set_now-Follows target l p.in_time late f.consistent),
        refl,
        late,
        rw same (record {
          outcomes = p.outcomes;
          transitions = p.transitions;
          results = p.results;
          in_time = omega arith;
        }),
      )

module _ {W : Type 0} (sha256 : JsonObject → String) where
  pub advance_inner-AdvanceEnds :
      (target : ℕ) (k : SimulationKernel W)
      → IsConsistent k
      → AdvanceEnds target k (advance_inner sha256 (pos target) k)
  unfolding advance_inner ◌>>=◌ ended
  advance_inner-AdvanceEnds target k c = elim (Bool-cases (ltb_ℤ (pos target) (pos k.run.now))) [
    | inl past ↦ rw past (Follows-refl k c)
    | inr ahead ↦ rw ahead (
        ended-AdvanceEnds target k (advance_loop sha256 (length k.scheduler.items) target [] k) (
          advance_loop-LoopEnds sha256 (length k.scheduler.items) target [] k (omega arith)
            (ground arith) c))
  ]

  guarded-AdvanceEnds :
      (target : ℕ) (k : SimulationKernel W)
      (out : Result (List SystemEventOutcome) × SimulationKernel W)
      → k.transition_active ≡ false
      → AdvanceEnds target (set_active true k) out
      → AdvanceEnds target k (out.0, set_active false out.1)
  guarded-AdvanceEnds target k (err e, l) h f = guarded-Follows k l h f
  guarded-AdvanceEnds target k (ok outs, l) h (f, now, late, p) = (
    guarded-Follows k l h f,
    now,
    late,
    record {
      outcomes = p.outcomes;
      transitions = p.transitions;
      results = p.results;
      in_time = p.in_time;
    },
  )

  -- From a consistent kernel `advance_to target` either raises in a consistent kernel that follows
  -- it, or returns with the clock at the target, no event due at the target left in the queue,
  -- the returned outcomes appended to the record, one transition for each, and no action ended.
  pub advance_to-AdvanceEnds :
      (target : ℕ) (k : SimulationKernel W)
      → IsConsistent k
      → AdvanceEnds target k (advance_to sha256 (pos target) k)
  unfolding advance_to ◌>>=◌
  advance_to-AdvanceEnds target k c = elim (ensure_available-cases k) [
    | inl (e, refused) ↦ rw refused (Follows-refl k c)
    | inr (open_, _, idle) ↦ rw open_ (
        guarded-AdvanceEnds target k (advance_inner sha256 (pos target) (set_active true k)) idle
          (advance_inner-AdvanceEnds target (set_active true k) (set_active-IsConsistent true k c)))
  ]
