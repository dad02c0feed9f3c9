-- ===== src/Application/Session/Submit.antt =====
-- application/session.py, `_submit`: each request identity reaches the engine once.
use journey_map.Prelude.{
  ℕ, String, Bool, true, false, not, ◌&&◌, Option, none, some, List, [], ◌∷◌, ◌==◌, leb, length,
  if◌then◌else◌,
}
use journey_map.Prelude.Exec.{Result, ok, err, game_submission}
use journey_map.Prelude.State.{Exec, lift, gets, finally_do, ◌>>=◌, ◌>>◌}
use journey_map.Prelude.Dict.{lookup, insert, erase}
use journey_map.Json.{JsonObject, same_object}
use journey_map.Core.Handlers.{ActionRequest}
use journey_map.Core.Controller.{ControllerActionResult}
use journey_map.Application.Contracts.{normalize_request, request_fingerprint}
use journey_map.Application.Session.{
  ActionTrace, ErrorType, indeterminate_request, RequestEntry, SimulationApplication, enter,
  set_busy, receipt, next_sequence, append_trace, public_result,
}
use journey_map.Application.Session.Execute.{trace_of, execute}

abbrev pub last_of : List ActionTrace → Option ActionTrace
last_of [] = none
last_of (t ∷ []) = some t
last_of (t ∷ u ∷ ts) = last_of (u ∷ ts)

-- The entry of a reserved identity.
abbrev pub new_entry : String → JsonObject → ℕ → RequestEntry
new_entry actor_id fingerprint sequence = record {
  actor_id = actor_id;
  fingerprint = fingerprint;
  attempt_sequence = sequence;
  receipt = none;
  error_code = "ENGINE_ERROR";
}

abbrev pub is_same_request : RequestEntry → String → JsonObject → Bool
is_same_request entry actor_id fingerprint =
    entry.actor_id == actor_id && same_object entry.fingerprint fingerprint

abbrev pub reason_of : Option ControllerActionResult → Option String
reason_of none = none
reason_of (some r) = r.reason_code

abbrev pub indeterminate : Option ControllerActionResult → Option ErrorType
indeterminate none = some indeterminate_request
indeterminate (some r) = none

abbrev pub answer_of : RequestEntry → Result ControllerActionResult
answer_of entry = elim entry.receipt [
  | some r ↦ ok r
  | none ↦ err (game_submission entry.error_code)
]

module _ {W : Type 0} where
  abbrev pub put_entry : String → RequestEntry → SimulationApplication W → SimulationApplication W
  put_entry id entry app = record app { requests = insert id entry app.requests }

  -- A request whose identity was used before.
  unfoldable pub repeat :
      RequestEntry
      → String
      → ActionRequest
      → JsonObject
      → Exec (SimulationApplication W) ControllerActionResult
  repeat entry actor_id request fingerprint app =
      elim (is_same_request entry actor_id fingerprint) [
        | false ↦
            let visible = receipt actor_id request "REQUEST_ID_CONFLICT" app in
            (
              ok visible,
              append_trace
                  (record (trace_of request app) {
                    controller_result = some visible;
                    boundary_reason = some "REQUEST_ID_CONFLICT";
                    retry_of_attempt = some entry.attempt_sequence;
                  })
                  app,
            )
        | true ↦ (
          answer_of entry,
          append_trace
              (record (trace_of request app) {
                controller_result = entry.receipt;
                boundary_reason = reason_of entry.receipt;
                error_type = indeterminate entry.receipt;
                retry_of_attempt = some entry.attempt_sequence;
              })
              app,
        )
      ]

  -- `self._traces[-1] if len(self._traces) >= sequence else None`
  abbrev pub own_trace : ℕ → SimulationApplication W → Option ActionTrace
  own_trace sequence app = if leb sequence (length app.traces) then last_of app.traces else none

  -- Without a result, a failed read of knowledge that was no engine's gives the identity back.
  unfoldable pub release :
      RequestEntry
      → String
      → ActionRequest
      → Option ActionTrace
      → SimulationApplication W
      → SimulationApplication W
  release entry code request none app = put_entry request.action_request_id entry app
  release entry code request (some trace) app =
      elim (code == "KNOWLEDGE_UNAVAILABLE" && not trace.engine_submitted) [
        | true ↦ record app { requests = erase request.action_request_id app.requests }
        | false ↦ put_entry request.action_request_id entry app
      ]

  -- The `except GameSubmissionError` block, with the entry that has the error's code.
  unfoldable pub settle :
      RequestEntry
      → String
      → String
      → ActionRequest
      → Option ActionTrace
      → SimulationApplication W
      → SimulationApplication W
  unfolding release
  settle entry code actor_id request none app = release entry code request none app
  settle entry code actor_id request (some trace) app = elim trace.result [
    | some result ↦
        put_entry request.action_request_id
          (record entry { receipt = some (public_result actor_id request result) }) app
    | none ↦ release entry code request (some trace) app
  ]

  unfoldable pub settled :
      RequestEntry
      → String
      → ActionRequest
      → Result ControllerActionResult
      → Exec (SimulationApplication W) ControllerActionResult
  unfolding settle
  settled entry actor_id request (ok visible) app = (
    ok visible,
    put_entry request.action_request_id (record entry { receipt = some visible }) app,
  )
  settled entry actor_id request (err (game_submission code)) app = (
    err (game_submission code),
    settle (record entry { error_code = code }) code actor_id request
        (own_trace entry.attempt_sequence app) app,
  )
  settled entry actor_id request (err e) app = (err e, app)

  module _ (sha256 : JsonObject → String) where
    -- A new identity is reserved before anything else is read.
    unfoldable pub first_attempt :
        String → ActionRequest → JsonObject → Exec (SimulationApplication W) ControllerActionResult
    unfolding settled
    first_attempt actor_id request fingerprint app =
        let entry = new_entry actor_id fingerprint (next_sequence app) in
        let out = execute sha256 actor_id request (put_entry request.action_request_id entry app) in
        settled entry actor_id request out.0 out.1

    unfoldable pub attempt :
        Option RequestEntry
        → String
        → ActionRequest
        → JsonObject
        → Exec (SimulationApplication W) ControllerActionResult
    unfolding repeat first_attempt
    attempt none actor_id request fingerprint = first_attempt actor_id request fingerprint
    attempt (some entry) actor_id request fingerprint = repeat entry actor_id request fingerprint

    unfoldable pub submit_inner :
        String → ActionRequest → Exec (SimulationApplication W) ControllerActionResult
    unfolding attempt
    submit_inner actor_id value = do
      request ← lift (normalize_request value)
      fingerprint ← lift (request_fingerprint request)
      previous ← gets (λ app. lookup request.action_request_id app.requests)
      attempt previous actor_id request fingerprint

    unfoldable pub submit :
        String → ActionRequest → Exec (SimulationApplication W) ControllerActionResult
    unfolding submit_inner
    submit actor_id value = do enter; finally_do (submit_inner actor_id value) (set_busy false)
