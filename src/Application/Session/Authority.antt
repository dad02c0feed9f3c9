-- ===== src/Application/Session/Authority.antt =====
-- The kernel is changed by authorized requests alone, each by one call of the engine.
use journey_map.Prelude.{
  ℕ, String, ◌≡◌, ◌⊎◌, refl, inl, inr, Option, none, some, ◌==◌, length, Bool-cases, Option-cases,
  eq_iff, arith,
}
use journey_map.Prelude.Exec.{Result, ok, err, game_submission, action_handler_not_found}
use journey_map.Json.{JsonObject}
use journey_map.Core.Handlers.{ActionRequest, ActionResult}
use journey_map.Core.Observations.{Observation}
use journey_map.Core.Controller.{ControllerActionResult}
use journey_map.Core.Kernel.Submit.{submit_action}
use journey_map.Application.Observations.History.{find}
use journey_map.Application.Session.{
  ActionTrace, RequestEntry, SimulationApplication, authority_reason, observation_reason,
}
use journey_map.Application.Session.Execute.{
  Preflight, granted, denied, unread, escaped, preflight, after_preflight, engine_ended, run_engine,
}
use journey_map.Application.Session.Submit.{own_trace, release, settle, settled}

module _ {W : Type 0} where
  -- A request of the actor, in this run, now, that is based on an observation that the actor got.
  pub record IsAuthorized (actor_id : String) (request : ActionRequest)
      (app : SimulationApplication W) : Type 0 where
    pub run : request.run_id ≡ app.kernel.run.manifest.run_id
    pub own : request.actor_id ≡ actor_id
    pub observation : Observation
    pub seen : find request.based_on_observation_id app.observations ≡ some observation
    pub seen_run : observation.run_id ≡ request.run_id
    pub seen_by : observation.actor_id ≡ actor_id
    pub now : request.submitted_at ≡ app.kernel.run.now

  -- The conditions of the observation's reason, when there is none.
  observation_reason-none :
      (found : Option Observation) (actor_id : String) (request : ActionRequest)
      (app : SimulationApplication W)
      → observation_reason found actor_id request app ≡ none
      → (o : Observation) × (found ≡ some o)
        × (o.run_id ≡ request.run_id)
        × (o.actor_id ≡ actor_id)
        × (request.submitted_at ≡ app.kernel.run.now)
  unfolding observation_reason
  observation_reason-none none actor_id request app h = cc
  observation_reason-none (some o) actor_id request app h = (
    o,
    refl,
    (eq_iff o.run_id request.run_id).0 (ground arith),
    (eq_iff o.actor_id actor_id).0 (ground arith),
    ground arith,
  )

  pub authority_reason-none :
      (actor_id : String) (request : ActionRequest) (app : SimulationApplication W)
      → authority_reason actor_id request app ≡ none
      → IsAuthorized actor_id request app
  unfolding authority_reason
  authority_reason-none actor_id request app h =
      elim (Bool-cases (request.run_id == app.kernel.run.manifest.run_id)) [
        | inr wrong ↦ (let clash = rw wrong at h in cc)
        | inl run ↦ elim (Bool-cases (request.actor_id == actor_id)) [
          | inr wrong ↦ (let clash = rw (run, wrong) at h in cc)
          | inl own ↦
              let (o, seen, seen_run, seen_by, now) =
                observation_reason-none (find request.based_on_observation_id app.observations)
                  actor_id request app (rw (run, own) at h) in
              record {
                run = (eq_iff request.run_id app.kernel.run.manifest.run_id).0 run;
                own = (eq_iff request.actor_id actor_id).0 own;
                observation = o;
                seen = seen;
                seen_run = seen_run;
                seen_by = seen_by;
                now = now;
              }
        ]
      ]

  pub preflight-granted :
      (actor_id : String) (request : ActionRequest) (app : SimulationApplication W)
      → preflight actor_id request app ≡ granted
      → authority_reason actor_id request app ≡ none
  unfolding preflight
  preflight-granted actor_id request app h =
      elim (Option-cases (authority_reason actor_id request app)) [
        | inl no_reason ↦ no_reason
        | inr (reason, e) ↦ (let clash = rw (e, preflight) at h in cc)
      ]

  engine_ended-kernel :
      (offset : ℕ) (actor_id : String) (request : ActionRequest) (r : Result ActionResult)
      (app : SimulationApplication W)
      → (engine_ended offset actor_id request r app).1.kernel ≡ app.kernel
  unfolding engine_ended
  engine_ended-kernel offset actor_id request (ok result) app = refl
  engine_ended-kernel offset actor_id request (err action_handler_not_found) app = refl
  engine_ended-kernel offset actor_id request (err e) app = refl

  release-kernel :
      (entry : RequestEntry) (code : String) (request : ActionRequest) (t : Option ActionTrace)
      (app : SimulationApplication W)
      → (release entry code request t app).kernel ≡ app.kernel
  unfolding release
  release-kernel entry code request none app = refl
  release-kernel entry code request (some t) app = ground arith

  settle-kernel :
      (entry : RequestEntry) (code actor_id : String) (request : ActionRequest)
      (t : Option ActionTrace) (app : SimulationApplication W)
      → (settle entry code actor_id request t app).kernel ≡ app.kernel
  unfolding settle
  settle-kernel entry code actor_id request none app = release-kernel entry code request none app
  settle-kernel entry code actor_id request (some t) app = elim (Option-cases t.result) [
    | inl missing ↦ rw (missing, settle) (release-kernel entry code request (some t) app)
    | inr (result, there) ↦ rw (there, settle) refl
  ]

  pub settled-kernel :
      (entry : RequestEntry) (actor_id : String) (request : ActionRequest)
      (r : Result ControllerActionResult) (app : SimulationApplication W)
      → (settled entry actor_id request r app).1.kernel ≡ app.kernel
  unfolding settled
  settled-kernel entry actor_id request (ok visible) app = refl
  settled-kernel entry actor_id request (err (game_submission code)) app =
      settle-kernel (record entry { error_code = code }) code actor_id request
        (own_trace entry.attempt_sequence app) app
  settled-kernel entry actor_id request (err e) app = refl

  module _ (sha256 : JsonObject → String) where
    -- What an execution does to the kernel.
    pub after_preflight-kernel :
        (p : Preflight) (actor_id : String) (request : ActionRequest)
        (app : SimulationApplication W)
        → ((after_preflight sha256 p actor_id request app).1.kernel ≡ app.kernel)
          ⊎ ((p ≡ granted)
              × ((after_preflight sha256 p actor_id request app).1.kernel
                  ≡ (submit_action sha256 request app.kernel).1))
    unfolding after_preflight run_engine
    after_preflight-kernel granted actor_id request app =
        let out = submit_action sha256 request app.kernel in
        inr (
          refl,
          engine_ended-kernel (length app.kernel.action_results) actor_id request out.0
              (record app { kernel = out.1 }),
        )
    after_preflight-kernel (denied reason) actor_id request app = inl refl
    after_preflight-kernel (unread e) actor_id request app = inl refl
    after_preflight-kernel (escaped e) actor_id request app = inl refl
