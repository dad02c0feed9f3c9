-- ===== src/Application/Session/Reachable.antt =====
-- What holds of every game that its calls reach.
use journey_map.Prelude.{
  ℕ, ◌≤◌, String, ◌≡◌, refl, sym, ap, ◌∙◌, inl, inr, Bool, true, not, ◌||◌, Option, ◌==◌, arith,
  Bool-cases,
}
use journey_map.Prelude.Int.{pos, eqb_ℤ}
use journey_map.Prelude.Exec.{ok, value_error, raise_if, >>=-eq-ok, ok-injective, Result-cases}
use journey_map.Prelude.State.{◌>>=◌, continue}
use journey_map.Prelude.Dict.{contains}
use journey_map.Json.{JsonObject, clone_json_object}
use journey_map.Core.Run.{is_running}
use journey_map.Core.Handlers.{ActionRequest}
use journey_map.Core.Kernel.State.{SimulationKernel}
use journey_map.Modules.Knowledge.{KnowledgeLedger, history}
use journey_map.Modules.Knowledge.Projection.{KnowledgeProjector}
use journey_map.Application.Perception.{PerceptionExtension}
use journey_map.Application.Observations.{ObservationPipeline}
use journey_map.Application.Session.{
  SimulationApplication, make_application, check_owners, enter, set_busy,
}
use journey_map.Application.Session.Observe.{observe, observe_inner, perceived_context}
use journey_map.Application.Session.Submit.{submit}
use journey_map.Application.Session.Once.{engine_count, IsOnce, Keeps}
use journey_map.Application.Session.Steps.{submit-IsOnce}

module _ {W : Type 0} where
  Keeps-IsOnce : (app left : SimulationApplication W) → Keeps app left → IsOnce app → IsOnce left
  Keeps-IsOnce app left k once id =
      let (few, none_free) = once id in
      let same = ap (engine_count id) k.traces in
      (omega (arith, few, same), λ h. same ∙ none_free (ap (contains id) (sym k.requests) ∙ h))

  make_application-IsOnce :
      (kernel : SimulationKernel W) (knowledge : KnowledgeLedger) (pipeline : ObservationPipeline)
      (projector : Option KnowledgeProjector) (extension : Option PerceptionExtension)
      (social last : Bool) (app : SimulationApplication W)
      → make_application kernel knowledge pipeline projector extension social last ≡ ok app
      → IsOnce app
  unfolding make_application engine_count
  make_application-IsOnce kernel knowledge pipeline projector extension social last app e id =
      let (_, _, e₁) =
        >>=-eq-ok
          (raise_if
            (not (knowledge.run_id == kernel.run.manifest.run_id)
              || not (eqb_ℤ (pos knowledge.initial_time) kernel.run.manifest.start_time))
            value_error)
          _ e in
      let (records, _, e₂) = >>=-eq-ok (history knowledge) _ e₁ in
      let (world, _, e₃) = >>=-eq-ok (clone_json_object kernel.state) _ e₂ in
      let (_, _, e₄) = >>=-eq-ok (check_owners world records) _ e₃ in
      rw (← ok-injective e₄) (omega arith, λ h. refl)

  -- A game from its start: the calls of its actors, and whatever its owner does with the kernel.
  pub data IsReachable (sha256 : JsonObject → String) (canonical_bytes : JsonObject → ℕ)
      : SimulationApplication W → Type 0 where
    started :
        {app : SimulationApplication W} (kernel : SimulationKernel W) (knowledge : KnowledgeLedger)
        (pipeline : ObservationPipeline) (projector : Option KnowledgeProjector)
        (extension : Option PerceptionExtension) (social include_last_receipt : Bool)
        → make_application kernel knowledge pipeline projector extension social include_last_receipt
          ≡ ok app
        → IsReachable sha256 canonical_bytes app
    observed :
        {app : SimulationApplication W} (actor_id : String)
        → IsReachable sha256 canonical_bytes app
        → IsReachable sha256 canonical_bytes (observe sha256 canonical_bytes actor_id app).1
    submitted :
        {app : SimulationApplication W} (actor_id : String) (request : ActionRequest)
        → IsReachable sha256 canonical_bytes app
        → IsReachable sha256 canonical_bytes (submit sha256 actor_id request app).1
    moved :
        {app : SimulationApplication W} (kernel : SimulationKernel W)
        → IsReachable sha256 canonical_bytes app
        → IsReachable sha256 canonical_bytes (record app { kernel = kernel })

  module _ (sha256 : JsonObject → String) (canonical_bytes : JsonObject → ℕ) where
    observe_inner-Keeps :
        (actor_id : String) (app : SimulationApplication W)
        → Keeps app (observe_inner sha256 canonical_bytes actor_id app).1
    unfolding observe_inner ◌>>=◌
    observe_inner-Keeps actor_id app = elim (Result-cases (perceived_context actor_id app)) [
      | inl (context, fine) ↦ rw (fine, continue) (record { traces = refl; requests = refl })
      | inr (e, bad) ↦ rw (bad, continue) (record { traces = refl; requests = refl })
    ]

    observe-IsOnce :
        (actor_id : String) (app : SimulationApplication W)
        → IsOnce app
        → IsOnce (observe sha256 canonical_bytes actor_id app).1
    unfolding observe enter ◌>>=◌
    observe-IsOnce actor_id app once =
        elim (Bool-cases (app.busy || not (is_running app.kernel.run.status))) [
          | inl closed ↦ rw (closed, enter, continue) once
          | inr open_ ↦
              let k = observe_inner-Keeps actor_id (set_busy true app) in
              rw (open_, enter, continue) (Keeps-IsOnce (set_busy true app) _ k once)
        ]

    -- In a game that is reached from its start, no request identity was an engine input twice.
    pub reachable-once :
        (app : SimulationApplication W) (id : String)
        → IsReachable sha256 canonical_bytes app
        → engine_count id app.traces ≤ 1
    reachable-once app id r = (reachable-IsOnce app r id).0
      where
        reachable-IsOnce :
            (app : SimulationApplication W) → IsReachable sha256 canonical_bytes app → IsOnce app
        reachable-IsOnce app (started kernel knowledge pipeline projector extension social last e) =
            make_application-IsOnce kernel knowledge pipeline projector extension social last app e
        reachable-IsOnce _ (observed {app} actor_id r) =
            observe-IsOnce actor_id app (reachable-IsOnce app r)
        reachable-IsOnce _ (submitted {app} actor_id request r) =
            submit-IsOnce sha256 actor_id request app (reachable-IsOnce app r)
        reachable-IsOnce _ (moved {app} kernel r) = reachable-IsOnce app r
