-- ===== src/Core/Kernel/Actions.antt =====
-- What `submit_action` promises.
use mathlib.Core.List.{append-nil}
use journey_map.Prelude.{
  ℕ, ◌+◌, ◌<◌, String, ◌≡◌, refl, sym, ◌⊎◌, none, some, ◌++◌, [], ◌∷◌, map, arith, All,
}
use journey_map.Prelude.Exec.{Error, Result, ok, err, validation}
use journey_map.Json.{JsonObject, state_digest}
use journey_map.Core.Rng.{DeterministicRng, IsWord}
use journey_map.Core.Scheduler.{ScheduledEvent}
use journey_map.Core.Handlers.Registry
use journey_map.Core.Handlers.{
  ActionHandler, ActionRequest, ActionResult, ActionStatus, ActionTiming, TransitionPlan, succeeded,
  rejected, failed,
}
use journey_map.Core.Kernel.State.{SimulationKernel}
use journey_map.Core.Kernel.Commit.{Prepared, prepare}
use journey_map.Core.Kernel.Submit.{
  action_source, start_action, check_completion, resolve_action, failure_result, success_result,
}
use journey_map.Core.Kernel.Atomic.{after_commit}
use journey_map.Core.Kernel.Invariant.{IsConsistent}
use journey_map.Core.Kernel.Follows.{
  Follows, Follows-trans, after_success-Follows, successes, successes-append,
}

-- The kernel with one more action result.
abbrev pub with_result : {W : Type 0} → ActionResult → SimulationKernel W → SimulationKernel W
with_result r k = record k { action_results = k.action_results ++ r ∷ [] }

-- The result of an action that was refused or failed: it says why, and names no transition.
pub record IsFailure (request : ActionRequest) (handler_id : String) (started_at : ℕ)
    (status : ActionStatus) (reason digest : String) (now : ℕ) (r : ActionResult) : Type 0 where
  pub of_request : r.action_request_id ≡ request.action_request_id
  pub handler : r.handler_id ≡ handler_id
  pub status_is : r.status ≡ status
  pub why : r.reason_code ≡ some reason
  pub no_transition : r.transition ≡ none
  pub no_events : r.emitted_event_ids ≡ []
  pub digest_is : r.state_digest_after ≡ digest
  pub times : (r.started_at ≡ started_at) × (r.resolved_at ≡ now)

-- The result of an action that succeeded: it names the transition and the events of its commit.
pub record IsSuccess (request : ActionRequest) (handler_id : String) (started_at : ℕ) (p : Prepared)
    (now : ℕ) (r : ActionResult) : Type 0 where
  pub of_request : r.action_request_id ≡ request.action_request_id
  pub handler : r.handler_id ≡ handler_id
  pub status_is : r.status ≡ succeeded
  pub no_reason : r.reason_code ≡ none
  pub names : r.transition ≡ some p.transition
  pub events : r.emitted_event_ids ≡ map (λ e. e.event_id) p.emitted_events
  pub digest_is : r.state_digest_after ≡ p.digest_after
  pub times : (r.started_at ≡ started_at) × (r.resolved_at ≡ now)

-- The kernel `m` after the duration of an action that started at `k`: the events that fell due by
-- then were processed, and no action ended meanwhile.
pub record IsElapsed {W : Type 0} (started_at : ℕ) (timing : ActionTiming)
    (k m : SimulationKernel W) : Type 0 where
  pub follows : Follows k m
  pub at_end : m.run.now ≡ started_at + timing.duration
  pub nothing_due : All (λ (x : ScheduledEvent). m.run.now < x.due_time) m.scheduler.items
  pub no_action : m.action_results ≡ k.action_results

-- An action may complete: it is not timed, or its duration passed and the completion check holds.
abbrev pub IsReady :
    {W : Type 0}
    → ActionHandler
    → ActionRequest
    → ℕ
    → SimulationKernel W
    → SimulationKernel W
    → Type 0
IsReady handler request started_at k m =
    ((start_action handler request k ≡ ok none) × (m ≡ k))
    ⊎ ((timing : ActionTiming) × (start_action handler request k ≡ ok (some timing))
        × IsElapsed started_at timing k m
        × (check_completion handler.timed request timing m ≡ ok tt))

-- How an action ends that starts at `k`:
-- it raises, in a kernel that follows `k`;
-- the start check refuses it, and only its result is recorded;
-- the completion check fails after its duration, and only its result is recorded then;
-- or it succeeds, after its duration, by one commit of the plan that its handler gives then.
pub data ActionEnds {W : Type 0} (sha256 : JsonObject → String) (handler : ActionHandler)
    (request : ActionRequest) (started_at : ℕ) (k : SimulationKernel W)
    (out : Result ActionResult × SimulationKernel W) : Type 0 where
  raised :
      (x : Error) (l : SimulationKernel W)
      → Follows k l
      → out ≡ (err x, l)
      → ActionEnds sha256 handler request started_at k out
  was_rejected :
      (reason digest : String) (r : ActionResult)
      → start_action handler request k ≡ err (validation reason)
      → state_digest sha256 k.state ≡ ok digest
      → IsFailure request handler.handler_id started_at rejected reason digest k.run.now r
      → out ≡ (ok r, with_result r k)
      → ActionEnds sha256 handler request started_at k out
  has_failed :
      (timing : ActionTiming) (m : SimulationKernel W) (reason digest : String) (r : ActionResult)
      → start_action handler request k ≡ ok (some timing)
      → IsElapsed started_at timing k m
      → check_completion handler.timed request timing m ≡ err (validation reason)
      → state_digest sha256 m.state ≡ ok digest
      → IsFailure request handler.handler_id started_at failed reason digest m.run.now r
      → out ≡ (ok r, with_result r m)
      → ActionEnds sha256 handler request started_at k out
  has_succeeded :
      (m : SimulationKernel W) (plan : TransitionPlan) (rng : DeterministicRng) (p : Prepared)
      (w : W) (r : ActionResult)
      → IsReady handler request started_at k m
      → Follows k m
      → IsWord rng
      → resolve_action handler request m ≡ ok (plan, rng)
      → prepare sha256 plan (action_source request) m ≡ ok p
      → IsSuccess request handler.handler_id started_at p m.run.now r
      → out ≡ (ok r, record (with_result r (after_commit p rng m)) { outside = w })
      → ActionEnds sha256 handler request started_at k out

-- How a submission behind its guard ends: it raises and changes nothing, or a registered handler
-- of its type and version took it.
abbrev pub SubmitEnds :
    {W : Type 0}
    → (JsonObject → String)
    → ActionRequest
    → ℕ
    → SimulationKernel W
    → Result ActionResult × SimulationKernel W
    → Type 0
SubmitEnds sha256 request started_at k out =
    ((x : Error) × (out ≡ (err x, k)))
    ⊎ ((handler : ActionHandler) × (Registry.get request.action_type request.schema_version
            k.action_registry
          ≡ ok handler)
        × ActionEnds sha256 handler request started_at k out)

pub failure_result-IsFailure :
    (request : ActionRequest) (handler_id : String) (started_at : ℕ) (status : ActionStatus)
    (reason digest : String) (now : ℕ)
    → IsFailure request handler_id started_at status reason digest now
        (failure_result request handler_id started_at status reason digest now)
unfolding failure_result
failure_result-IsFailure request handler_id started_at status reason digest now = record {
  of_request = refl;
  handler = refl;
  status_is = refl;
  why = refl;
  no_transition = refl;
  no_events = refl;
  digest_is = refl;
  times = (refl, refl);
}

pub success_result-IsSuccess :
    (request : ActionRequest) (handler_id : String) (started_at : ℕ) (p : Prepared) (now : ℕ)
    → IsSuccess request handler_id started_at p now
        (success_result request handler_id started_at p now)
unfolding success_result
success_result-IsSuccess request handler_id started_at p now = record {
  of_request = refl;
  handler = refl;
  status_is = refl;
  no_reason = refl;
  names = refl;
  events = refl;
  digest_is = refl;
  times = (refl, refl);
}

-- A failure result is of no transition, so it leaves the balance.
failure-Follows :
    {W : Type 0} (r : ActionResult) (k : SimulationKernel W)
    → r.transition ≡ none
    → IsConsistent k
    → Follows k (with_result r k)
failure-Follows r k h c =
    let none_more : successes (r ∷ []) ≡ 0 = rw (h, successes) refl in
    record {
      consistent = record {
        log = c.log;
        counted = c.counted;
        past = c.past;
        started = c.started;
        future = c.future;
        queue = c.queue;
        word = c.word;
        systems_draw = c.systems_draw;
        actions_draw = c.actions_draw;
      };
      later = omega arith;
      same_run = refl;
      same_status = refl;
      same_guard = refl;
      added = [];
      grown = sym (append-nil k.events);
      outcomes = [];
      outcomes_grown = sym (append-nil k.system_event_outcomes);
      results = r ∷ [];
      results_grown = refl;
      named = λ n after before. absurd (omega (arith, after, before));
      balanced = omega (arith, successes-append k.action_results (r ∷ []), none_more);
    }

-- However an action ends, the kernel follows the one that it started in.
pub ActionEnds-Follows :
    {W : Type 0} (sha256 : JsonObject → String) (handler : ActionHandler) (request : ActionRequest)
    (started_at : ℕ) (k : SimulationKernel W) (out : Result ActionResult × SimulationKernel W)
    → IsConsistent k
    → ActionEnds sha256 handler request started_at k out
    → Follows k out.1
ActionEnds-Follows sha256 handler request t k out c (raised x l f e) = rw e f
ActionEnds-Follows sha256 handler request t k out c (was_rejected reason digest r refused d is e) =
    rw e (failure-Follows r k is.no_transition c)
ActionEnds-Follows sha256 handler request t k out c
      (has_failed timing m reason digest r begun passed late d is e) =
    rw e (
      Follows-trans k m _ passed.follows
        (failure-Follows r m is.no_transition passed.follows.consistent))
ActionEnds-Follows sha256 handler request t k out c
      (has_succeeded m plan rng p w r ready f word planned h is e) =
    rw e (
      Follows-trans k m _ f (
        after_success-Follows sha256 plan (action_source request) rng m p r w word is.names h
          f.consistent))
