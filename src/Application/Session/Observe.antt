-- ===== src/Application/Session/Observe.antt =====
-- application/session.py, `game_for` and `_observe`: what an actor is shown.
use journey_map.Prelude.{ℕ, String, true, false, none, some, List, [], ◌∷◌, ◌==◌}
use journey_map.Prelude.Int.{pos}
use journey_map.Prelude.Exec.{
  Result, ok, err, value_error, game_submission, raise_if, ◌>>=◌ as ◌>>=ᵣ◌, ◌>>◌ as ◌>>ᵣ◌,
}
use journey_map.Prelude.State.{Exec, reads, gets, finally_do, ◌>>=◌, ◌>>◌}
use journey_map.Json.{
  JsonObject, JsonValue, null, object, text, integer, empty, field, has, insert, clone_json_object,
}
use journey_map.Core.Controller.{ControllerActionResult}
use journey_map.Core.Observations.{PerceptionContext, Observation, make_context}
use journey_map.Modules.Knowledge.Projection.{detached_events}
use journey_map.Modules.Social.Perception.{perceive_social}
use journey_map.Application.Contracts.{request_json, text_or_null}
use journey_map.Application.Observations.History.{ObservationHistory, generate}
use journey_map.Application.Perception.{perceive}
use journey_map.Application.Session.{
  ActionTrace, SimulationApplication, knowledge_snapshot, enter, set_busy, status_value,
}

-- `replace(context, perceived={**context.perceived, key: value})`, of a key that is free.
unfoldable pub add_scope : String → JsonValue → PerceptionContext → Result PerceptionContext
add_scope key value context =
    raise_if (has key context.perceived) value_error
    >>ᵣ make_context context.run_id context.actor_id context.simulation_time
        (insert key value context.perceived) context.known

-- `{**asdict(result), "status": str(result.status)}`
unfoldable pub receipt_json : ControllerActionResult → JsonObject
receipt_json r = field "action_request_id" (text r.action_request_id) (
    field "run_id" (text r.run_id) (
      field "actor_id" (text r.actor_id) (
        field "status" (text (status_value r.status)) (
          field "reason_code" (text_or_null r.reason_code) (
            field "started_at" (integer (pos r.started_at)) (
              field "resolved_at" (integer (pos r.resolved_at))
                (field "schema_version" (integer r.schema_version) empty)))))))

-- The last trace with a receipt of the actor, if there is one.
unfoldable pub last_action : String → List ActionTrace → JsonValue → JsonValue
last_action actor_id [] found = found
last_action actor_id (t ∷ ts) found = elim t.controller_result [
  | none ↦ last_action actor_id ts found
  | some r ↦ elim (r.actor_id == actor_id) [
    | false ↦ last_action actor_id ts found
    | true ↦ last_action actor_id ts (
        object (
          field "request" (object (request_json t.request))
            (field "receipt" (object (receipt_json r)) empty)))
  ]
]

-- `except Exception: raise GameSubmissionError("OBSERVATION_UNAVAILABLE")`
abbrev pub as_unavailable : Result Observation → Result Observation
as_unavailable (ok r) = ok r
as_unavailable (err e) = err (game_submission "OBSERVATION_UNAVAILABLE")

module _ {W : Type 0} where
  unfoldable pub add_social :
      String → SimulationApplication W → PerceptionContext → Result PerceptionContext
  unfolding add_scope
  add_social actor_id app context = elim app.social [
    | false ↦ ok context
    | true ↦
        raise_if (has "social" context.perceived) value_error
        >>ᵣ (detached_events app.kernel.events >>=ᵣ λ events.
            perceive_social events actor_id >>=ᵣ λ social.
            add_scope "social" (object social) context)
  ]

  unfoldable pub add_last_action :
      String → SimulationApplication W → PerceptionContext → Result PerceptionContext
  unfolding add_scope last_action
  add_last_action actor_id app context = elim app.include_last_receipt [
    | false ↦ ok context
    | true ↦ add_scope "last_action" (last_action actor_id app.traces null) context
  ]

  unfoldable pub perceived_context : String → SimulationApplication W → Result PerceptionContext
  unfolding add_social add_last_action
  perceived_context actor_id app = clone_json_object app.kernel.state >>=ᵣ λ world.
      knowledge_snapshot app >>=ᵣ λ knowledge.
      perceive app.kernel.run.manifest.run_id actor_id app.kernel.run.now world knowledge
        app.perception_extension
      >>=ᵣ λ context. add_social actor_id app context >>=ᵣ add_last_action actor_id app

module _ {W : Type 0} (sha256 : JsonObject → String) (canonical_bytes : JsonObject → ℕ) where
  -- A method of the application's history.
  abbrev pub on_history :
      {A : Type 0} → Exec ObservationHistory A → Exec (SimulationApplication W) A
  on_history m app = let out = m app.observations in (out.0, record app { observations = out.1 })

  unfoldable pub observe_inner : String → Exec (SimulationApplication W) Observation
  unfolding perceived_context
  observe_inner actor_id = do
    context ← reads (perceived_context actor_id)
    pipeline ← gets (λ app. app.pipeline)
    on_history (generate sha256 canonical_bytes context pipeline)

  abbrev pub sanitized :
      Exec (SimulationApplication W) Observation → Exec (SimulationApplication W) Observation
  sanitized m app = let out = m app in (as_unavailable out.0, out.1)

  unfoldable pub observe : String → Exec (SimulationApplication W) Observation
  unfolding observe_inner
  observe actor_id = do enter; finally_do (sanitized (observe_inner actor_id)) (set_busy false)
