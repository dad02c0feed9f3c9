-- ===== src/Core/Kernel/Follows.antt =====
-- How a kernel moves on: the clock and the log only grow, and the run stays the same run.
use journey_map.Prelude.{
  ℕ, suc, ◌+◌, ◌≤◌, ◌<◌, ltb, ◌⊎◌, inl, inr, not, none, some, Bool-cases, String, ◌≡◌, refl, sym,
  ap, ◌∙◌, List, ◌++◌, [], ◌∷◌, arith, All, length, length-append,
}
use mathlib.Core.List.{append_assoc, append-nil}
use journey_map.Prelude.Exec.{ok, runtime_error, raise_if, >>=-eq-ok, ok-injective}
use journey_map.Json.{JsonObject, state_digest}
use journey_map.Core.Run.{TransitionIdentity, pending_transition, is_running}
use journey_map.Core.Rng.{DeterministicRng, IsWord}
use journey_map.Core.Scheduler.{ScheduledEvent}
use journey_map.Core.Scheduler.Order as Order
use journey_map.Core.Events.{EventEnvelope}
use journey_map.Core.Handlers.{TransitionPlan, SystemEventOutcome, ActionResult}
use journey_map.Core.Kernel.State.{SimulationKernel, set_now}
use journey_map.Core.Kernel.Commit.{Prepared, Source, prepare, candidate_state, envelopes}
use journey_map.Core.Kernel.Advance.{system_source}
use journey_map.Core.Kernel.Atomic.{after_commit}
use journey_map.Core.Kernel.Invariant.{IsConsistent, after_commit-IsConsistent}
use journey_map.Core.Kernel.Step.{after_step, set_now-IsConsistent}

-- The results that name a transition.
abbrev pub successes : List ActionResult → ℕ
successes [] = 0
successes (r ∷ rs) = elim r.transition [ some t ↦ suc (successes rs) | none ↦ successes rs ]

pub successes-append :
    (rs ss : List ActionResult) → successes (rs ++ ss) ≡ successes rs + successes ss
successes-append [] ss = omega arith
successes-append (r ∷ rs) ss = ground (arith, successes-append rs ss)

-- Something in a list is of a kind.
abbrev pub Has : {A : Type 0} → (A → Type 0) → List A → Type 0
Has P [] = ⊥
Has P (x ∷ xs) = P x ⊎ Has P xs

module _ {A : Type 0} (P : A → Type 0) where
  Has-left : (xs ys : List A) → Has P xs → Has P (xs ++ ys)
  Has-left [] ys h = absurd h
  Has-left (x ∷ xs) ys (inl here) = inl here
  Has-left (x ∷ xs) ys (inr later) = inr (Has-left xs ys later)

  Has-right : (xs ys : List A) → Has P ys → Has P (xs ++ ys)
  Has-right [] ys h = h
  Has-right (x ∷ xs) ys h = inr (Has-right xs ys h)

-- An outcome and a result of the transition with a number.
abbrev pub OutcomeOf : ℕ → SystemEventOutcome → Type 0
OutcomeOf n o = o.transition.sequence ≡ n

abbrev pub ResultOf : ℕ → ActionResult → Type 0
ResultOf n r = (t : TransitionIdentity) × (r.transition ≡ some t) × (t.sequence ≡ n)

abbrev pub IsNamed : ℕ → List SystemEventOutcome → List ActionResult → Type 0
IsNamed n os rs = Has (OutcomeOf n) os ⊎ Has (ResultOf n) rs

IsNamed-left :
    (n : ℕ) (os os' : List SystemEventOutcome) (rs rs' : List ActionResult)
    → IsNamed n os rs
    → IsNamed n (os ++ os') (rs ++ rs')
IsNamed-left n os os' rs rs' (inl o) = inl (Has-left (OutcomeOf n) os os' o)
IsNamed-left n os os' rs rs' (inr r) = inr (Has-left (ResultOf n) rs rs' r)

IsNamed-right :
    (n : ℕ) (os os' : List SystemEventOutcome) (rs rs' : List ActionResult)
    → IsNamed n os' rs'
    → IsNamed n (os ++ os') (rs ++ rs')
IsNamed-right n os os' rs rs' (inl o) = inl (Has-right (OutcomeOf n) os os' o)
IsNamed-right n os os' rs rs' (inr r) = inr (Has-right (ResultOf n) rs rs' r)

-- What accounts for a kernel's transitions: its system outcomes, and its results that name one.
abbrev pub accounted : {W : Type 0} → SimulationKernel W → ℕ
accounted k = length k.system_event_outcomes + successes k.action_results

pub record Follows {W : Type 0} (k l : SimulationKernel W) : Type 0 where
  pub consistent : IsConsistent l
  pub later : k.run.now ≤ l.run.now
  pub same_run : l.run.manifest ≡ k.run.manifest
  pub same_status : l.run.status ≡ k.run.status
  pub same_guard : l.transition_active ≡ k.transition_active
  -- The log of `k` is the beginning of the log of `l`.
  pub added : List EventEnvelope
  pub grown : l.events ≡ k.events ++ added
  -- The outcomes and the results of `k` are the beginnings of those of `l`.
  pub outcomes : List SystemEventOutcome
  pub outcomes_grown : l.system_event_outcomes ≡ k.system_event_outcomes ++ outcomes
  pub results : List ActionResult
  pub results_grown : l.action_results ≡ k.action_results ++ results
  -- A new outcome or a new result names each new transition, and there are as many of them as
  -- there are new transitions.
  pub named :
      (n : ℕ)
      → k.run.transition_sequence < n
      → n ≤ l.run.transition_sequence
      → IsNamed n outcomes results
  pub balanced : l.run.transition_sequence + accounted k ≡ k.run.transition_sequence + accounted l

module _ {W : Type 0} where
  pub Follows-refl : (k : SimulationKernel W) → IsConsistent k → Follows k k
  Follows-refl k c = record {
    consistent = c;
    later = omega arith;
    same_run = refl;
    same_status = refl;
    same_guard = refl;
    added = [];
    grown = sym (append-nil k.events);
    outcomes = [];
    outcomes_grown = sym (append-nil k.system_event_outcomes);
    results = [];
    results_grown = sym (append-nil k.action_results);
    named = λ n after before. absurd (omega (arith, after, before));
    balanced = refl;
  }

  pub Follows-trans : (k l m : SimulationKernel W) → Follows k l → Follows l m → Follows k m
  Follows-trans k l m f g = record {
    consistent = g.consistent;
    later = omega (arith, f.later, g.later);
    same_run = g.same_run ∙ f.same_run;
    same_status = g.same_status ∙ f.same_status;
    same_guard = g.same_guard ∙ f.same_guard;
    added = f.added ++ g.added;
    grown = g.grown ∙ ap (λ es. es ++ g.added) f.grown ∙ append_assoc k.events f.added g.added;
    outcomes = f.outcomes ++ g.outcomes;
    outcomes_grown =
        g.outcomes_grown
        ∙ ap (λ os. os ++ g.outcomes) f.outcomes_grown
        ∙ append_assoc k.system_event_outcomes f.outcomes g.outcomes;
    results = f.results ++ g.results;
    results_grown =
        g.results_grown
        ∙ ap (λ rs. rs ++ g.results) f.results_grown
        ∙ append_assoc k.action_results f.results g.results;
    named = λ n after before. elim (Bool-cases (ltb l.run.transition_sequence n)) [
      | inl later ↦
          IsNamed-right n f.outcomes g.outcomes f.results g.results
            (g.named n (ground arith) before)
      | inr sooner ↦
          IsNamed-left n f.outcomes g.outcomes f.results g.results (f.named n after (ground arith))
    ];
    balanced = omega (arith, f.balanced, g.balanced);
  }

module _ {W : Type 0} (sha256 : JsonObject → String) where
  -- The transition that is prepared has the next number.
  prepare-sequence :
      (plan : TransitionPlan) (source : Source) (k : SimulationKernel W) (p : Prepared)
      → prepare sha256 plan source k ≡ ok p
      → p.transition.sequence ≡ k.run.transition_sequence + 1
  unfolding prepare pending_transition
  prepare-sequence plan source k p h =
      let (candidate, _, h₁) = >>=-eq-ok (candidate_state plan k.state) _ h in
      let (digest, _, h₂) = >>=-eq-ok (state_digest sha256 candidate) _ h₁ in
      let (t, got, h₃) =
        >>=-eq-ok
          (pending_transition source.source_kind source.source_ref source.causation_id
            source.correlation_id k.run)
          _ h₂ in
      let (_, _, h₄) = >>=-eq-ok (raise_if (not (is_running k.run.status)) runtime_error) _ got in
      let (es, made, h₅) = >>=-eq-ok (envelopes 1 plan.events t k.run) _ h₃ in
      ap (λ q. q.transition.sequence) (sym (ok-injective h₅))
      ∙ ap (λ (u : TransitionIdentity). u.sequence) (sym (ok-injective h₄))

  -- A commit together with the record of its successful result.
  pub after_success-Follows :
      (plan : TransitionPlan) (source : Source) (rng : DeterministicRng) (k : SimulationKernel W)
      (p : Prepared) (r : ActionResult) (w : W)
      → IsWord rng
      → r.transition ≡ some p.transition
      → prepare sha256 plan source k ≡ ok p
      → IsConsistent k
      → Follows k (record (after_commit p rng k) {
        action_results = k.action_results ++ r ∷ [];
        outside = w;
      })
  after_success-Follows plan source rng k p r w word names h c =
      let d = after_commit-IsConsistent sha256 plan source rng k p word h c in
      let one : successes (r ∷ []) ≡ 1 = rw (names, successes) refl in
      record {
        consistent = record {
          log = d.log;
          counted = d.counted;
          past = d.past;
          started = d.started;
          future = d.future;
          queue = d.queue;
          word = d.word;
          systems_draw = d.systems_draw;
          actions_draw = d.actions_draw;
        };
        later = omega arith;
        same_run = refl;
        same_status = refl;
        same_guard = refl;
        added = p.emitted_events;
        grown = refl;
        outcomes = [];
        outcomes_grown = sym (append-nil k.system_event_outcomes);
        results = r ∷ [];
        results_grown = refl;
        named = λ n after before. inr (
            inl (
              p.transition,
              names,
              omega (arith, after, before, prepare-sequence plan source k p h),
            ));
        balanced = omega (arith, successes-append k.action_results (r ∷ []), one);
      }

  pub after_step-Follows :
      (e : ScheduledEvent) (rest : List ScheduledEvent) (o : SystemEventOutcome)
      (plan : TransitionPlan) (p : Prepared) (rng : DeterministicRng) (w : W)
      (k : SimulationKernel W)
      → k.scheduler.items ≡ e ∷ rest
      → IsWord rng
      → prepare sha256 plan (system_source e) (set_now e.due_time k) ≡ ok p
      → o.transition ≡ p.transition
      → IsConsistent k
      → Follows k (after_step e rest o p rng w k)
  after_step-Follows e rest o plan p rng w k h word prepared names c =
      let c' = set_now-IsConsistent k e rest h c in
      let d =
        after_commit-IsConsistent sha256 plan (system_source e) rng (set_now e.due_time k) p word
          prepared c' in
      let future : All (λ (x : ScheduledEvent). e.due_time ≤ x.due_time) (e ∷ rest) =
        rw h at c'.future in
      let due : All (λ (x : ScheduledEvent). k.run.now ≤ x.due_time) (e ∷ rest) =
        rw h at c.future in
      let sorted : Order.IsSorted (e ∷ rest) = rw h at c.queue.sorted in
      let numbered : Order.IsNumbered k.scheduler.next_insertion_sequence (e ∷ rest) =
        rw h at c.queue.numbered in
      record {
        consistent = record {
          log = d.log;
          counted = d.counted;
          past = d.past;
          started = d.started;
          future = future.1;
          queue = record { sorted = sorted.1; numbered = numbered.1 };
          word = d.word;
          systems_draw = d.systems_draw;
          actions_draw = d.actions_draw;
        };
        later = due.0;
        same_run = refl;
        same_status = refl;
        same_guard = refl;
        added = p.emitted_events;
        grown = refl;
        outcomes = o ∷ [];
        outcomes_grown = refl;
        results = [];
        results_grown = sym (append-nil k.action_results);
        named =
            let number =
              prepare-sequence plan (system_source e) (set_now e.due_time k) p prepared in
            λ n after before.
              inl (inl (ap (λ t. t.sequence) names ∙ omega (arith, after, before, number)));
        balanced = omega (arith, length-append k.system_event_outcomes (o ∷ []));
      }
