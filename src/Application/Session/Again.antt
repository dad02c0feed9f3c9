-- ===== src/Application/Session/Again.antt =====
-- Submitting a request twice gives one receipt twice.
use journey_map.Prelude.{
  String, ◌≡◌, refl, sym, ap, ◌∙◌, inl, inr, true, not, ◌||◌, Option, none, some, if◌then◌else◌,
  Bool-cases, eq_refl,
}
use journey_map.Prelude.Exec.{Error, Result, ok, err, game_submission, Result-cases}
use journey_map.Prelude.State.{◌>>=◌, continue}
use journey_map.Prelude.Dict.{lookup}
use journey_map.Json.{JsonObject}
use journey_map.Json.Laws.{same_object_refl}
use journey_map.Core.Run.{is_running}
use journey_map.Core.Handlers.{ActionRequest}
use journey_map.Core.Controller.{ControllerActionResult}
use journey_map.Application.Contracts.{normalize_request, request_fingerprint}
use journey_map.Application.Session.{
  RequestEntry, SimulationApplication, enter, set_busy, receipt, next_sequence,
}
use journey_map.Application.Session.Execute.{execute}
use journey_map.Application.Session.Submit.{
  new_entry, put_entry, repeat, first_attempt, attempt, submit_inner, submit, is_same_request,
  answer_of,
}
use journey_map.Application.Session.Retry.{
  IsOpen, repeat-IsRetry, submit-attempt, submit-IsRetry, settled-ok,
}

not_ok :
    {r : Result ControllerActionResult} (e : Error) (v : ControllerActionResult)
    → r ≡ ok v
    → r ≡ err e
    → ⊥
not_ok e v h k = cc

module _ {W : Type 0} where
  -- The answer that a retry gets.
  abbrev retry_answer :
      RequestEntry
      → String
      → ActionRequest
      → JsonObject
      → SimulationApplication W
      → Result ControllerActionResult
  retry_answer entry actor_id request fingerprint app =
      if is_same_request entry actor_id fingerprint
      then answer_of entry
      else ok (receipt actor_id request "REQUEST_ID_CONFLICT" app)

  retry_answer-kernel :
      (entry : RequestEntry) (actor_id : String) (request : ActionRequest)
      (fingerprint : JsonObject) (app left : SimulationApplication W)
      → left.kernel ≡ app.kernel
      → retry_answer entry actor_id request fingerprint left
        ≡ retry_answer entry actor_id request fingerprint app
  unfolding receipt
  retry_answer-kernel entry actor_id request fingerprint app left same = rw same refl

  module _ (sha256 : JsonObject → String) where
    first_attempt-answer :
        (actor_id : String) (request : ActionRequest) (fingerprint : JsonObject)
        (app : SimulationApplication W) (visible : ControllerActionResult)
        → (first_attempt sha256 actor_id request fingerprint app).0 ≡ ok visible
        → (entry : RequestEntry) × (lookup request.action_request_id
              (first_attempt sha256 actor_id request fingerprint app).1.requests
            ≡ some entry)
          × (retry_answer entry actor_id request fingerprint
                (first_attempt sha256 actor_id request fingerprint app).1
              ≡ ok visible)
    unfolding first_attempt
    first_attempt-answer actor_id request fingerprint app visible h =
        let entry = new_entry actor_id fingerprint (next_sequence app) in
        let out = execute sha256 actor_id request (put_entry request.action_request_id entry app) in
        let same : is_same_request entry actor_id fingerprint ≡ true =
          rw (eq_refl actor_id) (same_object_refl fingerprint) in
        (
          record entry { receipt = some visible },
          settled-ok entry actor_id request out.0 out.1 visible h,
          rw same refl,
        )

    attempt-answer :
        (previous : Option RequestEntry) (actor_id : String) (request : ActionRequest)
        (fingerprint : JsonObject) (app : SimulationApplication W)
        (visible : ControllerActionResult)
        → lookup request.action_request_id app.requests ≡ previous
        → (attempt sha256 previous actor_id request fingerprint app).0 ≡ ok visible
        → (entry : RequestEntry) × (lookup request.action_request_id
              (attempt sha256 previous actor_id request fingerprint app).1.requests
            ≡ some entry)
          × (retry_answer entry actor_id request fingerprint
                (attempt sha256 previous actor_id request fingerprint app).1
              ≡ ok visible)
    unfolding attempt
    attempt-answer none actor_id request fingerprint app visible found h =
        first_attempt-answer actor_id request fingerprint app visible h
    attempt-answer (some entry) actor_id request fingerprint app visible found h =
        let r = repeat-IsRetry entry actor_id request fingerprint app in
        (
          entry,
          ap (lookup request.action_request_id) r.requests ∙ found,
          retry_answer-kernel entry actor_id request fingerprint app
                (repeat entry actor_id request fingerprint app).1 r.kernel
              ∙ sym r.answer
              ∙ h,
        )

    again :
        (actor_id : String) (value request : ActionRequest) (fingerprint : JsonObject)
        (app : SimulationApplication W) (visible : ControllerActionResult)
        → IsOpen app
        → normalize_request value ≡ ok request
        → request_fingerprint request ≡ ok fingerprint
        → (submit sha256 actor_id value app).0 ≡ ok visible
        → IsOpen (submit sha256 actor_id value app).1
        → ((submit sha256 actor_id value (submit sha256 actor_id value app).1).0 ≡ ok visible)
          × ((submit sha256 actor_id value (submit sha256 actor_id value app).1).1.kernel
              ≡ (submit sha256 actor_id value app).1.kernel)
    unfolding receipt
    again actor_id value request fingerprint app visible open_ fine printed h still =
        let first_ =
          submit-attempt sha256 actor_id value request fingerprint app open_ fine printed in
        let (entry, found, answer) =
          attempt-answer (lookup request.action_request_id app.requests) actor_id request
            fingerprint (set_busy true app) visible refl (ap (λ o. o.0) (sym first_) ∙ h) in
        let used = ap (λ o. lookup request.action_request_id o.1.requests) first_ ∙ found in
        let r =
          submit-IsRetry sha256 actor_id value request fingerprint entry
            (submit sha256 actor_id value app).1 still fine printed used in
        (
          r.answer ∙ ap (λ o. retry_answer entry actor_id request fingerprint o.1) first_ ∙ answer,
          r.kernel,
        )

    submit-closed :
        (actor_id : String) (value : ActionRequest) (app : SimulationApplication W)
        → app.busy || not (is_running app.kernel.run.status) ≡ true
        → (submit sha256 actor_id value app).0 ≡ err (game_submission "GAME_UNAVAILABLE")
    unfolding submit enter ◌>>=◌
    submit-closed actor_id value app closed = rw (closed, enter, continue) refl

    submit-invalid :
        (actor_id : String) (value : ActionRequest) (app : SimulationApplication W) (e : Error)
        → IsOpen app
        → normalize_request value ≡ err e
        → (submit sha256 actor_id value app).0 ≡ err e
    unfolding submit submit_inner enter ◌>>=◌
    submit-invalid actor_id value app e open_ bad = rw (open_, enter, continue, bad) refl

    submit-unprinted :
        (actor_id : String) (value request : ActionRequest) (app : SimulationApplication W)
        (e : Error)
        → IsOpen app
        → normalize_request value ≡ ok request
        → request_fingerprint request ≡ err e
        → (submit sha256 actor_id value app).0 ≡ err e
    unfolding submit submit_inner enter ◌>>=◌
    submit-unprinted actor_id value request app e open_ fine bad =
        rw (open_, enter, continue, fine, continue, bad) refl

    -- A request that got a receipt gets the same receipt when it is submitted again at once, by
    -- the same actor and while the game is open, and the kernel is left as it is.
    pub submit-again :
        (actor_id : String) (value : ActionRequest) (app : SimulationApplication W)
        (visible : ControllerActionResult)
        → (submit sha256 actor_id value app).0 ≡ ok visible
        → IsOpen (submit sha256 actor_id value app).1
        → ((submit sha256 actor_id value (submit sha256 actor_id value app).1).0 ≡ ok visible)
          × ((submit sha256 actor_id value (submit sha256 actor_id value app).1).1.kernel
              ≡ (submit sha256 actor_id value app).1.kernel)
    submit-again actor_id value app visible h still =
        elim (Bool-cases (app.busy || not (is_running app.kernel.run.status))) [
          | inl closed ↦ absurd (not_ok _ visible h (submit-closed actor_id value app closed))
          | inr open_ ↦ elim (Result-cases (normalize_request value)) [
            | inr (e, bad) ↦
                absurd (not_ok e visible h (submit-invalid actor_id value app e open_ bad))
            | inl (request, fine) ↦ elim (Result-cases (request_fingerprint request)) [
              | inr (e, bad) ↦ absurd (
                  not_ok e visible h (submit-unprinted actor_id value request app e open_ fine bad))
              | inl (fingerprint, printed) ↦
                  again actor_id value request fingerprint app visible open_ fine printed h still
            ]
          ]
        ]
