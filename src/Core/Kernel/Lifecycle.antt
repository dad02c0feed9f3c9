-- ===== src/Core/Kernel/Lifecycle.antt =====
-- Construction, booting, scheduling and the guard against reentrance.
use mathlib.Core.List.{append-nil}
use mathlib.Core.Path.{subst}
use journey_map.Prelude.{
  String, ◌≡◌, refl, sym, inl, inr, not, List, [], arith, All, Bool-cases, ◌==◌,
}
use journey_map.Prelude.Int.{ℤ, pos, ltb_ℤ}
use journey_map.Prelude.Exec.{ok, >>=-eq-ok, ok-injective, raise_if, initial_state_mismatch}
use journey_map.Json.{JsonObject, state_digest, clone_json_object}
use journey_map.Core.Scheduler
use journey_map.Core.Scheduler.{ScheduledEventSpec, ScheduledEvent}
use journey_map.Core.Handlers.{ActionHandler, SystemEventHandler}
use journey_map.Core.Kernel.State.{SimulationKernel, Persistence, schedule, make_kernel}
use journey_map.Core.Run.{RunManifest, make_run, make_run-fields}
use journey_map.Core.Modules.{ModuleRegistry}
use journey_map.Core.Events.{Subscription}
use journey_map.Core.Handlers.Registry.{Registry}
use journey_map.Core.Scheduler.Order.{schedule-due, schedule-IsValid}
use journey_map.Core.Kernel.Invariant.{IsConsistent, DrawsWords}
use journey_map.Core.Kernel.Follows.{Follows, Follows-refl}
use journey_map.Core.Kernel.Time.{ensure_available-cases}

module _ {W : Type 0} where
  -- Scheduling in a consistent kernel, whether it returns or raises, leaves a consistent kernel that
  -- follows.
  pub schedule-Follows :
      (spec : ScheduledEventSpec) (k : SimulationKernel W)
      → IsConsistent k
      → Follows k (schedule spec k).1
  unfolding schedule
  schedule-Follows spec k c = elim (ensure_available-cases k) [
    | inl (x, refused) ↦ rw refused (Follows-refl k c)
    | inr (available, _, idle) ↦ elim (Bool-cases (ltb_ℤ (pos spec.due_time) (pos k.run.now))) [
      | inl past ↦ rw available (rw past (Follows-refl k c))
      | inr ahead ↦ rw available (
          rw ahead (record {
            consistent = record {
              log = c.log;
              counted = c.counted;
              past = c.past;
              started = c.started;
              future = schedule-due k.run.now spec k.scheduler (ground arith) c.future;
              queue = schedule-IsValid spec k.scheduler c.queue;
              word = c.word;
              systems_draw = c.systems_draw;
              actions_draw = c.actions_draw;
            };
            later = omega arith;
            same_run = refl;
            same_status = refl;
            same_guard = refl;
            added = [];
            grown = sym (append-nil k.events);
            outcomes = [];
            outcomes_grown = sym (append-nil k.system_event_outcomes);
            results = [];
            results_grown = sym (append-nil k.action_results);
            named = λ n after before. absurd (omega (arith, after, before));
            balanced = refl;
          }))
    ]
  ]

  -- A kernel whose construction returns is consistent, if its handlers give back a generator whose
  -- state is a word whenever they are given one.
  pub make_kernel-IsConsistent :
      (sha256 : JsonObject → String) (modules : ModuleRegistry) (persistence : Persistence W)
      (manifest : RunManifest) (initial_state : JsonObject) (actions : Registry ActionHandler)
      (systems : Registry SystemEventHandler) (bus : List (Subscription W)) (outside : W)
      (k : SimulationKernel W)
      → make_kernel sha256 modules persistence manifest initial_state actions systems bus outside
        ≡ ok k
      → All (λ (e : (String × ℤ) × SystemEventHandler). DrawsWords e.1.resolve) systems
      → All (λ (e : (String × ℤ) × ActionHandler). DrawsWords e.1.resolve) actions
      → IsConsistent k
  unfolding make_kernel Scheduler.make_scheduler
  make_kernel-IsConsistent sha256 modules persistence manifest initial_state actions systems bus
        outside k h ds da =
      let (run, made, h₁) = >>=-eq-ok (make_run manifest) _ h in
      let (state, _, h₂) = >>=-eq-ok (clone_json_object initial_state) _ h₁ in
      let (digest, _, h₃) = >>=-eq-ok (state_digest sha256 state) _ h₂ in
      let (_, _, h₄) =
        >>=-eq-ok (raise_if (not (digest == manifest.initial_state_digest)) initial_state_mismatch)
          _ h₃ in
      let (m, now, events, _, word) = make_run-fields manifest run made in
      subst (λ (l : SimulationKernel W). IsConsistent l) (ok-injective h₄)
        (record {
          log = tt;
          counted = events;
          past = tt;
          started = rw m (omega (arith, now));
          future = tt;
          queue = record { sorted = tt; numbered = tt };
          word = word;
          systems_draw = ds;
          actions_draw = da;
        })
