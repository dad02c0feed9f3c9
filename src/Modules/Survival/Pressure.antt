-- ===== src/Modules/Survival/Pressure.antt =====
-- Pressures stay between 0 and 100.
use journey_map.Prelude.{ℕ, ◌+◌, ◌-◌, ◌*◌, ◌≤◌, ◌≡◌, refl, arith}
use journey_map.Prelude.Int.{pos}
use journey_map.Prelude.Exec.{ok}
use journey_map.Json.{integer}
use journey_map.Modules.Survival.{SurvivalState, make_survival, pressure}
use journey_map.Modules.Survival.Handlers.{rested, fed, ticked, at_most_100}

pressure-in_range : (n : ℕ) → n ≤ 100 → pressure (integer (pos n)) ≡ ok n
unfolding pressure
pressure-in_range n h = ground arith

made :
    (h f : ℕ)
    → h ≤ 100
    → f ≤ 100
    → make_survival (integer (pos h)) (integer (pos f)) ≡ ok (record { hunger = h; fatigue = f })
unfolding make_survival
made h f p q = rw (pressure-in_range h p) (rw (pressure-in_range f q) refl)

-- From pressures of at most 100, resting, eating and a tick never raise: a rest lowers the fatigue by 3
-- for each tick of its duration, eating the hunger by the recovery of each item, neither below 0,
-- and a tick raises the hunger by 2 and the fatigue by 1, neither above 100.
pub pressures_in_range :
    (before : SurvivalState) (duration recovery quantity : ℕ)
    → before.hunger ≤ 100
    → before.fatigue ≤ 100
    → (rested duration before
        ≡ ok (record { hunger = before.hunger; fatigue = before.fatigue - duration * 3 }))
      × (fed recovery quantity before
          ≡ ok (record { hunger = before.hunger - recovery * quantity; fatigue = before.fatigue }))
      × (ticked before
          ≡ ok (record {
            hunger = at_most_100 (before.hunger + 2);
            fatigue = at_most_100 (before.fatigue + 1);
          }))
unfolding rested fed ticked
pressures_in_range before duration recovery quantity h f = (
  made before.hunger (before.fatigue - duration * 3) h (omega arith),
  made (before.hunger - recovery * quantity) before.fatigue (ground arith) f,
  made (at_most_100 (before.hunger + 2)) (at_most_100 (before.fatigue + 1)) (ground arith)
      (ground arith),
)
