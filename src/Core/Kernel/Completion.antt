-- ===== src/Core/Kernel/Completion.antt =====
-- `submit_action` ends in one of the ways of `SubmitEnds`, and keeps the kernel consistent.
use mathlib.Core.Path.{subst}
use journey_map.Prelude.{
  ℕ, ◌+◌, String, ◌≡◌, refl, sym, ◌∙◌, inl, inr, true, false, Option, none, some, List, Bool-cases,
  ◌==◌,
}
use journey_map.Prelude.Int.{pos}
use journey_map.Prelude.Exec.{
  Error, Result, ok, err, validation, Result-cases, >>=-eq-ok, ok-injective,
}
use journey_map.Prelude.State.{continue, ◌>>=◌}
use journey_map.Json.{JsonObject, state_digest}
use journey_map.Core.Rng
use journey_map.Core.Rng.{DeterministicRng, IsWord, clone_lem}
use journey_map.Core.Handlers.{
  ActionRequest, ActionResult, ActionHandler, ActionTiming, TransitionPlan, SystemEventOutcome,
  detached, rejected, failed,
}
use journey_map.Core.Handlers.Registry
use journey_map.Core.Handlers.Registry.{get-All}
use journey_map.Core.Kernel.State.{SimulationKernel, resolution_context, set_active}
use journey_map.Core.Kernel.Commit.{Prepared, prepare}
use journey_map.Core.Kernel.Advance.{advance_to}
use journey_map.Core.Kernel.Submit.{
  start_action, check_completion, resolve_action, append_result, action_source, success_result,
  record_action_failure, complete_action, finish_action, run_action, submit_inner, submit_action,
  as_action_miss,
}
use journey_map.Core.Kernel.Atomic.{after_commit, commit_plan-CommitEnds}
use journey_map.Core.Kernel.Invariant.{IsConsistent, DrawsWords}
use journey_map.Core.Kernel.Dispatch.{resolution_context-rng}
use journey_map.Core.Kernel.Step.{publish_events-outside}
use journey_map.Core.Kernel.Follows.{Follows, Follows-refl, Follows-trans, after_success-Follows}
use journey_map.Core.Kernel.Time.{
  AdvanceEnds, advance_inner-AdvanceEnds, advance_to-AdvanceEnds, ensure_available-cases,
  guarded-Follows, set_active-IsConsistent,
}
use journey_map.Core.Kernel.Actions.{
  with_result, IsSuccess, IsElapsed, IsReady, ActionEnds, SubmitEnds, raised, was_rejected,
  has_failed, has_succeeded, ActionEnds-Follows, failure_result-IsFailure, success_result-IsSuccess,
}

as_action_miss-eq-ok :
    (r : Result ActionHandler) (h : ActionHandler) → as_action_miss r ≡ ok h → r ≡ ok h
unfolding as_action_miss
as_action_miss-eq-ok (ok g) h e = e
as_action_miss-eq-ok (err Error.handler_not_found) h e = absurd (cc)
as_action_miss-eq-ok (err _) h e = absurd (cc)

module _ {W : Type 0} where
  resolve_action-IsWord :
      (handler : ActionHandler) (request : ActionRequest) (k : SimulationKernel W)
      (plan : TransitionPlan) (rng : DeterministicRng)
      → IsConsistent k
      → DrawsWords handler.resolve
      → resolve_action handler request k ≡ ok (plan, rng)
      → IsWord rng
  unfolding resolve_action
  resolve_action-IsWord handler request k plan rng c draws h =
      let (rng₀, cloned, h₁) = >>=-eq-ok (Rng.clone k.run.rng) _ h in
      let (copy, _, h₂) = >>=-eq-ok (detached request) _ h₁ in
      let (context, built, h₃) = >>=-eq-ok (resolution_context rng₀ k) _ h₂ in
      let same : context.rng ≡ k.run.rng =
        resolution_context-rng rng₀ k context built
        ∙ ok-injective (sym cloned ∙ clone_lem k.run.rng c.word) in
      draws copy context plan rng (subst IsWord (sym same) c.word) h₃

module _ {W : Type 0} (sha256 : JsonObject → String) where
  -- The end of a completion, after the commit and the record of its result.
  published-ActionEnds :
      (handler : ActionHandler) (request : ActionRequest) (started_at : ℕ)
      (k m : SimulationKernel W) (plan : TransitionPlan) (rng : DeterministicRng) (p : Prepared)
      (r : ActionResult)
      → IsReady handler request started_at k m
      → Follows k m
      → IsWord rng
      → resolve_action handler request m ≡ ok (plan, rng)
      → prepare sha256 plan (action_source request) m ≡ ok p
      → IsSuccess request handler.handler_id started_at p m.run.now r
      → (out : Result (Unit {0})) (w : W)
      → ActionEnds sha256 handler request started_at k (
          continue out
            (λ _ (l : SimulationKernel W). (ok r, l))
            (record (with_result r (after_commit p rng m)) { outside = w }))
  published-ActionEnds handler request t k m plan rng p r ready f word planned h is (ok _) w =
      has_succeeded m plan rng p w r ready f word planned h is refl
  published-ActionEnds handler request t k m plan rng p r ready f word planned h is (err x) w =
      raised x _
        (Follows-trans k m _ f (
          after_success-Follows sha256 plan (action_source request) rng m p r w word is.names h
            f.consistent))
        refl

  committed-ActionEnds :
      (handler : ActionHandler) (request : ActionRequest) (started_at : ℕ)
      (k m : SimulationKernel W) (planned : Result (TransitionPlan × DeterministicRng))
      → IsReady handler request started_at k m
      → Follows k m
      → DrawsWords handler.resolve
      → resolve_action handler request m ≡ planned
      → ActionEnds sha256 handler request started_at k
          (complete_action sha256 handler request started_at m)
  unfolding complete_action ◌>>=◌ append_result
  committed-ActionEnds handler request t k m (err x) ready f draws h = rw h (raised x m f refl)
  committed-ActionEnds handler request t k m (ok (plan, rng)) ready f draws h =
      let word = resolve_action-IsWord handler request m plan rng f.consistent draws h in
      elim (commit_plan-CommitEnds sha256 plan (action_source request) rng m word) [
        | inl (x, refused) ↦ rw h (rw refused (raised x m f refl))
        | inr (p, prepared, wrote) ↦
            let r = success_result request handler.handler_id t p m.run.now in
            let is = success_result-IsSuccess request handler.handler_id t p m.run.now in
            let (out, w, shown) =
              publish_events-outside p.emitted_events (with_result r (after_commit p rng m)) in
            rw h (
              rw wrote (
                rw shown (
                  published-ActionEnds handler request t k m plan rng p r ready f word h prepared is
                    out w)))
      ]

  rejected-ActionEnds :
      (handler : ActionHandler) (request : ActionRequest) (started_at : ℕ) (k : SimulationKernel W)
      (reason : String)
      → start_action handler request k ≡ err (validation reason)
      → IsConsistent k
      → ActionEnds sha256 handler request started_at k
          (record_action_failure sha256 request handler.handler_id started_at rejected reason k)
  unfolding record_action_failure ◌>>=◌ append_result
  rejected-ActionEnds handler request t k reason refused c =
      elim (Result-cases (state_digest sha256 k.state)) [
        | inl (digest, d) ↦
            was_rejected reason digest _ refused d
              (failure_result-IsFailure request handler.handler_id t rejected reason digest
                k.run.now)
              (rw d refl)
        | inr (x, d) ↦ raised x k (Follows-refl k c) (rw d refl)
      ]

  failed-ActionEnds :
      (handler : ActionHandler) (request : ActionRequest) (started_at : ℕ) (timing : ActionTiming)
      (k m : SimulationKernel W) (reason : String)
      → start_action handler request k ≡ ok (some timing)
      → IsElapsed started_at timing k m
      → check_completion handler.timed request timing m ≡ err (validation reason)
      → ActionEnds sha256 handler request started_at k
          (record_action_failure sha256 request handler.handler_id started_at failed reason m)
  unfolding record_action_failure ◌>>=◌ append_result
  failed-ActionEnds handler request t timing k m reason begun passed late =
      elim (Result-cases (state_digest sha256 m.state)) [
        | inl (digest, d) ↦
            has_failed timing m reason digest _ begun passed late d
              (failure_result-IsFailure request handler.handler_id t failed reason digest m.run.now)
              (rw d refl)
        | inr (x, d) ↦ raised x m passed.follows (rw d refl)
      ]

  finish_action-ActionEnds :
      (check : Result (Unit {0})) (handler : ActionHandler) (request : ActionRequest)
      (started_at : ℕ) (timing : ActionTiming) (k m : SimulationKernel W)
      → start_action handler request k ≡ ok (some timing)
      → IsElapsed started_at timing k m
      → check_completion handler.timed request timing m ≡ check
      → DrawsWords handler.resolve
      → ActionEnds sha256 handler request started_at k
          (finish_action sha256 check handler request started_at m)
  unfolding finish_action
  finish_action-ActionEnds (ok _) handler request t timing k m begun passed fine draws =
      committed-ActionEnds handler request t k m (resolve_action handler request m)
        (inr (timing, begun, passed, fine)) passed.follows draws refl
  finish_action-ActionEnds (err (validation reason)) handler request t timing k m begun passed late
        draws =
      failed-ActionEnds handler request t timing k m reason begun passed late
  finish_action-ActionEnds (err x) handler request t timing k m begun passed late draws =
      raised x m passed.follows refl

  -- After the duration, whatever the events that fell due did.
  elapsed-ActionEnds :
      (handler : ActionHandler) (request : ActionRequest) (started_at : ℕ) (timing : ActionTiming)
      (k : SimulationKernel W) (out : Result (List SystemEventOutcome) × SimulationKernel W)
      → start_action handler request k ≡ ok (some timing)
      → AdvanceEnds (started_at + timing.duration) k out
      → DrawsWords handler.resolve
      → ActionEnds sha256 handler request started_at k (
          continue out.0
            (λ _ (l : SimulationKernel W).
              finish_action sha256
                (check_completion handler.timed request timing l)
                handler
                request
                started_at
                l)
            out.1)
  elapsed-ActionEnds handler request t timing k (err x, m) begun f draws = raised x m f refl
  elapsed-ActionEnds handler request t timing k (ok outs, m) begun (f, now, late, p) draws =
      let passed : IsElapsed t timing k m = record {
        follows = f;
        at_end = now;
        nothing_due = rw now late;
        no_action = p.results;
      } in
      finish_action-ActionEnds (check_completion handler.timed request timing m) handler request t
        timing k m begun passed refl draws

  run_action-ActionEnds :
      (started : Result (Option ActionTiming)) (handler : ActionHandler) (request : ActionRequest)
      (started_at : ℕ) (k : SimulationKernel W)
      → start_action handler request k ≡ started
      → IsConsistent k
      → DrawsWords handler.resolve
      → ActionEnds sha256 handler request started_at k
          (run_action sha256 started handler request started_at k)
  unfolding run_action ◌>>=◌
  run_action-ActionEnds (ok none) handler request t k begun c draws =
      committed-ActionEnds handler request t k k (resolve_action handler request k)
        (inl (begun, refl)) (Follows-refl k c) draws refl
  run_action-ActionEnds (ok (some timing)) handler request t k begun c draws =
      elapsed-ActionEnds handler request t timing k _ begun
        (advance_inner-AdvanceEnds sha256 (t + timing.duration) k c) draws
  run_action-ActionEnds (err (validation reason)) handler request t k refused c draws =
      rejected-ActionEnds handler request t k reason refused c
  run_action-ActionEnds (err x) handler request t k e c draws = raised x k (Follows-refl k c) refl

  found-SubmitEnds :
      (request : ActionRequest) (started_at : ℕ) (k : SimulationKernel W)
      (found : Result ActionHandler)
      → as_action_miss (Registry.get request.action_type request.schema_version k.action_registry)
        ≡ found
      → IsConsistent k
      → SubmitEnds sha256 request started_at k (submit_inner sha256 request started_at k)
  unfolding submit_inner ◌>>=◌
  found-SubmitEnds request t k (err x) e c = inl (x, rw e refl)
  found-SubmitEnds request t k (ok handler) e c =
      let got = as_action_miss-eq-ok _ handler e in
      let draws : DrawsWords handler.resolve =
        get-All (λ (g : ActionHandler). DrawsWords g.resolve) request.action_type
          request.schema_version k.action_registry handler c.actions_draw got in
      inr (
        handler,
        got,
        rw e (
            run_action-ActionEnds (start_action handler request k) handler request t k refl c
              draws),
      )

  -- The part of a submission behind its guard, from a consistent kernel: without a registered
  -- handler it raises and changes nothing. With one it raises in a kernel that follows; or the
  -- start check refuses it, and only a result without a transition is recorded; or the completion
  -- check fails when its duration is over and nothing is due any more, and only such a result is
  -- recorded then; or, at once or at that time, the plan that the handler resolves is committed,
  -- and the result that is recorded names the transition and the events of that commit.
  pub submit_inner-SubmitEnds :
      (request : ActionRequest) (started_at : ℕ) (k : SimulationKernel W)
      → IsConsistent k
      → SubmitEnds sha256 request started_at k (submit_inner sha256 request started_at k)
  submit_inner-SubmitEnds request t k c =
      found-SubmitEnds request t k
        (as_action_miss (Registry.get request.action_type request.schema_version k.action_registry))
        refl c

  SubmitEnds-Follows :
      (request : ActionRequest) (started_at : ℕ) (k : SimulationKernel W)
      (out : Result ActionResult × SimulationKernel W)
      → IsConsistent k
      → SubmitEnds sha256 request started_at k out
      → Follows k out.1
  SubmitEnds-Follows request t k out c (inl (x, e)) = rw e (Follows-refl k c)
  SubmitEnds-Follows request t k out c (inr (handler, got, ends)) =
      ActionEnds-Follows sha256 handler request t k out c ends

  submitted-Follows :
      (request : ActionRequest) (k : SimulationKernel W) (copy : Result ActionRequest)
      → k.transition_active ≡ false
      → IsConsistent k
      → Follows k
          (continue copy
            (λ r l.
              let out = submit_inner sha256 r l.run.now (set_active true l) in
              (out.0, set_active false out.1))
            k).1
  submitted-Follows request k (err x) idle c = Follows-refl k c
  submitted-Follows request k (ok r) idle c =
      let c' = set_active-IsConsistent true k c in
      guarded-Follows k _ idle (
        SubmitEnds-Follows r k.run.now (set_active true k) _ c'
          (submit_inner-SubmitEnds r k.run.now (set_active true k) c'))

  arrived-Follows :
      (request : ActionRequest) (target : ℕ) (k : SimulationKernel W)
      (out : Result (List SystemEventOutcome) × SimulationKernel W)
      → k.transition_active ≡ false
      → AdvanceEnds target k out
      → Follows k
          (continue out.0
            (λ _ l.
              continue
                (detached request)
                (λ r m.
                  let ended = submit_inner sha256 r m.run.now (set_active true m) in
                  (ended.0, set_active false ended.1))
                l)
            out.1).1
  arrived-Follows request target k (err x, l) idle f = f
  arrived-Follows request target k (ok outs, l) idle (f, now, late, p) =
      Follows-trans k l _ f
        (submitted-Follows request l (detached request) (f.same_guard ∙ idle) f.consistent)

  -- Submitting any request to a consistent kernel, whether it returns or raises, leaves a consistent
  -- kernel that follows it: the clock and the log have only grown, the guard is as it was, and
  -- a new system outcome or a new action result names every new transition, of which there are as
  -- many as new outcomes and new results that name one.
  pub submit_action-Follows :
      (request : ActionRequest) (k : SimulationKernel W)
      → IsConsistent k
      → Follows k (submit_action sha256 request k).1
  unfolding submit_action ◌>>=◌
  submit_action-Follows request k c = elim (ensure_available-cases k) [
    | inl (x, refused) ↦ rw refused (Follows-refl k c)
    | inr (available, _, idle) ↦ elim (Bool-cases (request.run_id == k.run.manifest.run_id)) [
      | inr foreign ↦ rw available (rw foreign (Follows-refl k c))
      | inl own ↦ rw available (
          rw own (
            arrived-Follows request request.submitted_at k
              (advance_to sha256 (pos request.submitted_at) k) idle
              (advance_to-AdvanceEnds sha256 request.submitted_at k c)))
    ]
  ]
