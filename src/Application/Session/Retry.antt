-- ===== src/Application/Session/Retry.antt =====
-- A request that is submitted again gets its answer again, and the engine is not asked.
use journey_map.Prelude.{
  String, ◌≡◌, refl, ◌∙◌, inl, inr, true, false, not, ◌||◌, some, [], ◌∷◌, ◌++◌, if◌then◌else◌,
  Bool-cases, eq_refl,
}
use journey_map.Prelude.Exec.{Result, ok, err, game_submission, ok-injective}
use journey_map.Prelude.State.{◌>>=◌, continue}
use journey_map.Prelude.Dict.{lookup, lookup-insert}
use journey_map.Json.{JsonObject}
use journey_map.Core.Run.{is_running}
use journey_map.Core.Handlers.{ActionRequest}
use journey_map.Core.Controller.{ControllerActionResult}
use journey_map.Application.Contracts.{normalize_request, request_fingerprint}
use journey_map.Application.Session.{
  ActionTrace, RequestEntry, SimulationApplication, enter, set_busy, receipt,
}
use journey_map.Application.Session.Submit.{
  settled, repeat, attempt, submit_inner, submit, is_same_request, answer_of,
}

module _ {W : Type 0} where
  -- The game takes calls: no call is running, and the kernel is booted.
  abbrev pub IsOpen : SimulationApplication W → Type 0
  IsOpen app = app.busy || not (is_running app.kernel.run.status) ≡ false

  abbrev pub finished :
      Result ControllerActionResult × SimulationApplication W
      → Result ControllerActionResult × SimulationApplication W
  finished out = (out.0, set_busy false out.1)

  -- What the application leaves of the kernel, the requests and the answer, in a retry.
  pub record IsRetry (entry : RequestEntry) (actor_id : String) (request : ActionRequest)
      (fingerprint : JsonObject) (app : SimulationApplication W)
      (out : Result ControllerActionResult × SimulationApplication W) : Type 0 where
    pub answer : out.0 ≡ (
        if is_same_request entry actor_id fingerprint
        then answer_of entry
        else ok (receipt actor_id request "REQUEST_ID_CONFLICT" app))
    pub kernel : out.1.kernel ≡ app.kernel
    pub requests : out.1.requests ≡ app.requests
    pub trace : ActionTrace
    pub traces : out.1.traces ≡ app.traces ++ trace ∷ []
    pub no_input : trace.engine_submitted ≡ false

  pub repeat-IsRetry :
      (entry : RequestEntry) (actor_id : String) (request : ActionRequest)
      (fingerprint : JsonObject) (app : SimulationApplication W)
      → IsRetry entry actor_id request fingerprint app
          (repeat entry actor_id request fingerprint app)
  unfolding repeat
  repeat-IsRetry entry actor_id request fingerprint app =
      elim (Bool-cases (is_same_request entry actor_id fingerprint)) [
        | inl same ↦
            rw (same, repeat)
              (record {
                answer = rw same refl;
                kernel = refl;
                requests = refl;
                trace = _;
                traces = refl;
                no_input = refl;
              })
        | inr other ↦
            rw (other, repeat)
              (record {
                answer = rw other refl;
                kernel = refl;
                requests = refl;
                trace = _;
                traces = refl;
                no_input = refl;
              })
      ]

  module _ (sha256 : JsonObject → String) where
    pub submit-attempt :
        (actor_id : String) (value request : ActionRequest) (fingerprint : JsonObject)
        (app : SimulationApplication W)
        → IsOpen app
        → normalize_request value ≡ ok request
        → request_fingerprint request ≡ ok fingerprint
        → submit sha256 actor_id value app
          ≡ finished (
              attempt sha256
                (lookup request.action_request_id app.requests)
                actor_id
                request
                fingerprint
                (set_busy true app))
    unfolding submit submit_inner enter ◌>>=◌
    submit-attempt actor_id value request fingerprint app open_ fine printed =
        rw (open_, enter, continue, fine, continue, printed) refl

    -- In an open game, a well-formed request whose identity was used before is answered without
    -- the engine: with the first answer where actor and content are the same, and with a conflict
    -- otherwise. The kernel and the reserved identities stay, and the trace that is added is no
    -- engine input.
    pub submit-IsRetry :
        (actor_id : String) (value request : ActionRequest) (fingerprint : JsonObject)
        (entry : RequestEntry) (app : SimulationApplication W)
        → IsOpen app
        → normalize_request value ≡ ok request
        → request_fingerprint request ≡ ok fingerprint
        → lookup request.action_request_id app.requests ≡ some entry
        → IsRetry entry actor_id request fingerprint app (submit sha256 actor_id value app)
    unfolding attempt receipt
    submit-IsRetry actor_id value request fingerprint entry app open_ fine printed used =
        let r = repeat-IsRetry entry actor_id request fingerprint (set_busy true app) in
        rw (submit-attempt actor_id value request fingerprint app open_ fine printed, used)
          (record {
            answer = r.answer;
            kernel = r.kernel;
            requests = r.requests;
            trace = r.trace;
            traces = r.traces;
            no_input = r.no_input;
          })

  pub settled-ok :
      (entry : RequestEntry) (actor_id : String) (request : ActionRequest)
      (r : Result ControllerActionResult) (app : SimulationApplication W)
      (visible : ControllerActionResult)
      → (settled entry actor_id request r app).0 ≡ ok visible
      → lookup request.action_request_id (settled entry actor_id request r app).1.requests
        ≡ some (record entry { receipt = some visible })
  unfolding settled
  settled-ok entry actor_id request (ok shown) app visible h =
      let same : shown ≡ visible = ok-injective h in
      lookup-insert request.action_request_id request.action_request_id
        (record entry { receipt = some shown }) app.requests
      ∙ rw (eq_refl request.action_request_id, same) refl
  settled-ok entry actor_id request (err (game_submission code)) app visible h = cc
  settled-ok entry actor_id request (err e) app visible h = cc
