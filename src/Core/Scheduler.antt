-- ===== src/Core/Scheduler.antt =====
-- core/scheduler.py: future system events, in the order of time, priority and insertion.
-- `heapq` is Python's: its heap is modelled by the list of its items in the order in which it
-- gives them out, so that a push inserts by key and a pop takes the head.
pub mod Order
use journey_map.Prelude.{
  ℕ, suc, ◌+◌, String, Bool, true, false, ◌&&◌, ◌||◌, Option, none, some, List, [], ◌∷◌, is_empty,
  ltb, leb, ◌==ℕ◌, if◌then◌else◌,
}
use journey_map.Prelude.Int.{ℤ, pos_part, ltb_ℤ, eqb_ℤ, is_negative, is_nonpositive}
use journey_map.Prelude.Exec.{Result, ok, err, value_error, ◌>>=◌, ◌>>◌, raise_if}
use journey_map.Json.{JsonObject, clone_json_object}
use journey_map.Core.Ids.{scoped_id}

pub record ScheduledEventSpec : Type 0 where
  pub due_time : ℕ
  pub priority : ℤ
  pub event_type : String
  pub schema_version : ℤ
  pub payload : JsonObject
  pub correlation_id : Option String

-- `ScheduledEventSpec(...)` with its `__post_init__`.
pub make_spec : ℤ → ℤ → String → ℤ → JsonObject → Option String → Result ScheduledEventSpec
make_spec due_time priority event_type schema_version payload correlation_id = do
  raise_if (is_negative due_time) value_error
  raise_if (is_empty event_type) value_error
  raise_if (is_nonpositive schema_version) value_error
  detached ← clone_json_object payload
  ok (record {
    due_time = pos_part due_time;
    priority = priority;
    event_type = event_type;
    schema_version = schema_version;
    payload = detached;
    correlation_id = correlation_id;
  })

pub record ScheduledEvent : Type 0 where
  pub scheduled_event_id : String
  pub run_id : String
  pub due_time : ℕ
  pub priority : ℤ
  pub insertion_sequence : ℕ
  pub event_type : String
  pub schema_version : ℤ
  pub payload : JsonObject
  pub correlation_id : String

-- `detached`, a construction with a cloned payload.
unfoldable pub detached : ScheduledEvent → Result ScheduledEvent
detached event = do
  payload ← clone_json_object event.payload
  ok (record event { payload = payload })

-- Python's `<` on `ordering_key`s, tuples of time, priority and insertion.
unfoldable pub key_ltb : ScheduledEvent → ScheduledEvent → Bool
key_ltb a b =
    ltb a.due_time b.due_time
    || a.due_time ==ℕ b.due_time
      && (ltb_ℤ a.priority b.priority
          || eqb_ℤ a.priority b.priority && ltb a.insertion_sequence b.insertion_sequence)

pub record DeterministicScheduler : Type 0 where
  pub run_id : String
  pub next_insertion_sequence : ℕ
  pub items : List ScheduledEvent

unfoldable pub make_scheduler : String → DeterministicScheduler
make_scheduler run_id = record { run_id = run_id; next_insertion_sequence = 0; items = [] }

-- `heapq.heappush`
unfoldable pub heappush : ScheduledEvent → List ScheduledEvent → List ScheduledEvent
heappush e [] = e ∷ []
heappush e (x ∷ xs) = let rest = heappush e xs in if key_ltb x e then x ∷ rest else e ∷ x ∷ xs

-- `value or fallback`, of an optional text.
abbrev pub text_or : Option String → String → String
text_or none fallback = fallback
text_or (some s) fallback = if is_empty s then fallback else s

new_event : ScheduledEventSpec → DeterministicScheduler → ScheduledEvent
new_event spec s =
    let scheduled_event_id = scoped_id s.run_id ":scheduled-event:" s.next_insertion_sequence in
    record {
      scheduled_event_id = scheduled_event_id;
      run_id = s.run_id;
      due_time = spec.due_time;
      priority = spec.priority;
      insertion_sequence = s.next_insertion_sequence;
      event_type = spec.event_type;
      schema_version = spec.schema_version;
      payload = spec.payload;
      correlation_id = text_or spec.correlation_id scheduled_event_id;
    }

-- The constructed event is pushed, and a copy of it returned.
enqueue :
    Result ScheduledEvent → DeterministicScheduler → Result ScheduledEvent × DeterministicScheduler
enqueue (err e) s = (err e, s)
enqueue (ok event) s = (detached event, record s { items = heappush event s.items })

-- The sequence is consumed before the event is constructed, which clones its payload.
unfoldable pub schedule :
    ScheduledEventSpec → DeterministicScheduler → Result ScheduledEvent × DeterministicScheduler
unfolding new_event enqueue
schedule spec s =
    enqueue (detached (new_event spec s))
      (record s { next_insertion_sequence = s.next_insertion_sequence + 1 })

peek_head : ℕ → List ScheduledEvent → Option ScheduledEvent
peek_head through_time [] = none
peek_head through_time (e ∷ rest) = if ltb through_time e.due_time then none else some e

unfoldable pub peek_next_due : ℕ → DeterministicScheduler → Option ScheduledEvent
unfolding peek_head
peek_next_due through_time s = peek_head through_time s.items

-- `heapq.heappop` where the head is due.
pop_head : ℕ → List ScheduledEvent → Option ScheduledEvent × List ScheduledEvent
pop_head through_time [] = (none, [])
pop_head through_time (e ∷ rest) =
    if ltb through_time e.due_time then (none, e ∷ rest) else (some e, rest)

unfoldable pub pop_next_due :
    ℕ → DeterministicScheduler → Option ScheduledEvent × DeterministicScheduler
unfolding pop_head
pop_next_due through_time s =
    let (e, items) = pop_head through_time s.items in (e, record s { items = items })

-- `sorted(self._items)`, each item detached.
detached_all : List ScheduledEvent → Result (List ScheduledEvent)
detached_all [] = ok []
detached_all (e ∷ es) = do d ← detached e; ds ← detached_all es; ok (d ∷ ds)

pub pending : DeterministicScheduler → Result (List ScheduledEvent)
unfolding detached_all
pending s = detached_all s.items

pub record ScenarioSchedule : Type 0 where
  pub scenario_id : String
  pub scenario_version : String
  pub events : List ScheduledEventSpec
