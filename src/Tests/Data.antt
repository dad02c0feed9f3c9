-- ===== src/Tests/Data.antt =====
-- The theorems on the queue, the generator, the registries and JSON at small inputs.
use journey_map.Prelude.{ℕ, ◌<◌, ◌≡◌, refl, some, [], ◌∷◌, ◌++◌, arith, if◌then◌else◌}
use journey_map.Prelude.Int.{pos}
use journey_map.Prelude.Exec.{ok}
use journey_map.Core.Rng.{
  DeterministicRng, IsWord, randbelow, randbelow-in_range, next_u64, advance, mix64,
}
use journey_map.Core.Scheduler.{pop_next_due, peek_next_due, schedule}
use journey_map.Core.Scheduler.Order.{IsValid, Popped, schedule-IsValid, pop_next_due-Popped}
use journey_map.Core.Handlers.{ActionHandler}
use journey_map.Core.Handlers.Registry.{
  Registry, register, get, handler_key, find, register-get, same_key,
}
use journey_map.Tests.Fixtures.{scheduler, tick_spec, wait, actions}

scheduler-IsValid : IsValid scheduler
scheduler-IsValid = record { sorted = (tt, tt); numbered = (omega arith, tt) }

schedule-IsValid_example : IsValid (schedule tick_spec scheduler).1
schedule-IsValid_example = schedule-IsValid tick_spec scheduler scheduler-IsValid

pop_next_due-Popped_example :
    Popped 12 scheduler.items ((pop_next_due 12 scheduler).0, (pop_next_due 12 scheduler).1.items)
    × (peek_next_due 12 scheduler ≡ (pop_next_due 12 scheduler).0)
pop_next_due-Popped_example = pop_next_due-Popped 12 scheduler scheduler-IsValid

abbrev rng : DeterministicRng
rng = record { state = 7; draw_count = 3 }

randbelow-in_range_example :
    (v : ℕ) × (rng' : DeterministicRng) × (randbelow 1 (pos 10) rng ≡ ok (some (v, rng')))
    × (v < 10)
    × IsWord rng'
    × (rng.draw_count < rng'.draw_count)
unfolding next_u64 advance mix64
randbelow-in_range_example =
    randbelow-in_range 0 1 10 rng (omega arith) (omega arith) (omega arith) refl

abbrev more_actions : Registry ActionHandler
more_actions = actions ++ (("REST", pos 1), wait) ∷ []

registered : register (λ h. h.handler_id) "REST" (pos 1) wait actions ≡ ok more_actions
unfolding register handler_key find
registered = refl

register-get_example :
    get "WAIT" (pos 1) more_actions
    ≡ (if same_key ("REST", pos 1) ("WAIT", pos 1) then ok wait else get "WAIT" (pos 1) actions)
register-get_example =
    register-get (λ (h : ActionHandler). h.handler_id) "REST" "WAIT" (pos 1) (pos 1) wait actions
      more_actions registered
