-- ===== src/Application/Session/Port.antt =====
-- application/session.py, `game_for`: the port that is granted to one actor.
use journey_map.Prelude.{ℕ, String}
use journey_map.Prelude.Exec.{Result, ok, value_error, ◌>>=◌, ◌>>◌, or_raise}
use journey_map.Json.{JsonObject, clone_json_object}
use journey_map.Core.Entities.{get_entity}
use journey_map.Core.Controller.{GamePort}
use journey_map.Application.Session.{SimulationApplication}
use journey_map.Application.Session.Observe.{observe}
use journey_map.Application.Session.Submit.{submit}

module _ {W : Type 0} (sha256 : JsonObject → String) (canonical_bytes : JsonObject → ℕ) where
  unfoldable pub game_for :
      String → SimulationApplication W → Result (GamePort (SimulationApplication W))
  game_for actor_id app = do
    world ← clone_json_object app.kernel.state
    entity ← get_entity world actor_id
    or_raise entity value_error
    ok (record {
      observe = observe sha256 canonical_bytes actor_id;
      submit = submit sha256 actor_id;
    })
