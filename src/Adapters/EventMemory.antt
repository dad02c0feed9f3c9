-- ===== src/Adapters/EventMemory.antt =====
-- adapters/event_memory.py: what an actor experienced, one closed decision after another.
pub mod Archive
use journey_map.Prelude.{
  ℕ, ◌+◌, ◌-◌, suc, zero, String, Bool, true, false, not, ◌||◌, ◌&&◌, Option, none, some, List, [],
  ◌∷◌, ◌++◌, is_empty, ◌==◌, ◌==ℕ◌, ltb, length, is_some, if◌then◌else◌, first,
}
use journey_map.Prelude.Int.{ℤ, pos, eqb_ℤ, is_nonpositive, pos_part}
use journey_map.Prelude.Exec.{Result, ok, err, value_error, ◌>>=◌, ◌>>◌, raise_if, or_raise}
use journey_map.Prelude.State.{Exec}
use journey_map.Json.{JsonObject, same_object}
use journey_map.Core.Ids.{◌<>◌, format_08d}
use journey_map.Core.Controller.{ControllerActionResult}
use journey_map.Core.Handlers.{ActionRequest, succeeded, rejected, failed}
use journey_map.Core.Observations.{Observation, validate_observation_v1}
use journey_map.Application.Contracts.{
  normalize_request, request_fingerprint, validate_action_contract,
}
use journey_map.Application.Reasons.{is_in, visible_domain_reasons, fallback_reasons}
use journey_map.Application.Session.{status_value}

-- The action is the value that `_action_json` is the canonical text of.
pub record EventTrace : Type 0 where
  pub event_trace_id : String
  pub sequence : ℕ
  pub run_id : String
  pub actor_id : String
  pub decision_opportunity_id : String
  pub opportunity_sequence : ℕ
  pub attempt : ℕ
  pub observation : Observation
  pub action_request : ActionRequest
  pub action_json : JsonObject
  pub actor_visible_receipt : ControllerActionResult
  pub opened_at : ℕ
  pub closed_at : ℕ
  pub memory_eligible : Bool

pub record EventMemoryContext : Type 0 where
  pub current : Observation
  pub decision_opportunity_id : String
  pub opportunity_sequence : ℕ
  pub attempt : ℕ
  pub prior : List EventTrace

-- The loop over the prior traces, from the last sequence and closing time.
unfoldable pub check_traces : Observation → ℕ → ℕ → ℕ → List EventTrace → Result (Unit {0})
check_traces current opportunity previous_sequence previous_close [] = ok tt
check_traces current opportunity previous_sequence previous_close (t ∷ ts) = do
  raise_if
      (not (t.run_id == current.run_id)
        || not (t.actor_id == current.actor_id)
        || not t.memory_eligible
        || not (ltb previous_sequence t.sequence)
        || not (ltb t.opportunity_sequence opportunity)
        || not (ltb t.observation.observation_sequence current.observation_sequence)
        || ltb t.closed_at previous_close
        || ltb current.simulation_time t.closed_at)
      value_error
  check_traces current opportunity t.sequence t.closed_at ts

unfoldable pub make_event_context :
    Observation → String → ℕ → ℕ → List EventTrace → Result EventMemoryContext
unfolding check_traces
make_event_context current opportunity_id opportunity attempt prior = do
  validate_observation_v1 current
  check_traces current opportunity 0 0 prior
  ok (record {
    current = current;
    decision_opportunity_id = opportunity_id;
    opportunity_sequence = opportunity;
    attempt = attempt;
    prior = prior;
  })

abbrev pub drop : ℕ → List EventTrace → List EventTrace
drop n [] = []
drop zero (t ∷ ts) = t ∷ ts
drop (suc n) (t ∷ ts) = drop n ts

-- `RecencyEventMemory(k)` and its `select_events`: `context.prior[-k:]`
unfoldable pub make_recency : ℤ → Result ℕ
make_recency k = do raise_if (is_nonpositive k) value_error; ok (pos_part k)

unfoldable pub select_events : ℕ → EventMemoryContext → List EventTrace
select_events k context = drop (length context.prior - k) context.prior

pub record EventTraceArchive : Type 0 where
  pub traces : List EventTrace
  pub context : Option EventMemoryContext
  pub closed : Bool

abbrev pub new_archive : EventTraceArchive
new_archive = record { traces = []; context = none; closed = false }

abbrev pub closed_later : Observation → List EventTrace → Bool
closed_later o [] = false
closed_later o (t ∷ []) = ltb o.simulation_time t.closed_at
closed_later o (t ∷ u ∷ ts) = closed_later o (u ∷ ts)

-- Whether an observation goes back behind the context of the archive.
unfoldable pub is_backward : Observation → Option EventMemoryContext → EventTraceArchive → Bool
is_backward o none archive = false
is_backward o (some old) archive =
    not (old.current.run_id == o.run_id)
    || not (old.current.actor_id == o.actor_id)
    || ltb o.observation_sequence old.current.observation_sequence
    || ltb o.simulation_time old.current.simulation_time
    || closed_later o archive.traces
    || (archive.closed && not (ltb old.current.observation_sequence o.observation_sequence))

abbrev pub is_new : Observation → Option EventMemoryContext → Bool → Bool
is_new o none closed = true
is_new o (some old) closed =
    closed
    || not (old.current.simulation_time ==ℕ o.simulation_time)
    || not (old.current.content_digest == o.content_digest)

abbrev pub last_opportunity : Option EventMemoryContext → ℕ
last_opportunity none = 0
last_opportunity (some old) = old.opportunity_sequence

abbrev pub last_attempt : Option EventMemoryContext → ℕ
last_attempt none = 0
last_attempt (some old) = old.attempt

unfoldable pub next_context : Observation → EventTraceArchive → Result EventMemoryContext
unfolding is_backward make_event_context
next_context o archive = do
  validate_observation_v1 o
  raise_if (is_backward o archive.context archive) value_error
  let opened = is_new o archive.context archive.closed
  let sequence = last_opportunity archive.context + (if opened then 1 else 0)
  make_event_context o (o.run_id <> ":" <> o.actor_id <> ":opportunity:" <> format_08d sequence)
      sequence (if opened then 1 else last_attempt archive.context + 1) archive.traces

unfoldable pub begin : Observation → Exec EventTraceArchive EventMemoryContext
unfolding next_context
begin o archive = elim (next_context o archive) [
  | err e ↦ (err e, archive)
  | ok context ↦ (ok context, record archive { context = some context; closed = false })
]

abbrev pub same_option : Option String → Option String → Bool
same_option none none = true
same_option (some s) (some t) = s == t
same_option _ _ = false

abbrev pub same_receipt : ControllerActionResult → ControllerActionResult → Bool
same_receipt a b =
    a.action_request_id == b.action_request_id
    && a.run_id == b.run_id
    && a.actor_id == b.actor_id
    && status_value a.status == status_value b.status
    && same_option a.reason_code b.reason_code
    && a.started_at ==ℕ b.started_at
    && a.resolved_at ==ℕ b.resolved_at
    && eqb_ℤ a.schema_version b.schema_version

abbrev pub same_observation : Observation → Observation → Bool
same_observation a b =
    a.observation_id == b.observation_id
    && a.run_id == b.run_id
    && a.actor_id == b.actor_id
    && a.observation_sequence ==ℕ b.observation_sequence
    && a.simulation_time ==ℕ b.simulation_time
    && eqb_ℤ a.schema_version b.schema_version
    && a.content_digest == b.content_digest
    && same_object a.content b.content

abbrev pub is_visible_reason : Option String → Bool
is_visible_reason none = true
is_visible_reason (some r) = is_in visible_domain_reasons r || is_in fallback_reasons r

-- A success has no reason, another result has one, and a rejection takes no time.
abbrev pub is_status_bound : ControllerActionResult → Bool
is_status_bound r = elim r.status [
  | succeeded ↦ not (is_some r.reason_code)
  | failed ↦ is_some r.reason_code
  | rejected ↦ is_some r.reason_code && r.resolved_at ==ℕ r.started_at
]

-- The condition that the receipt and the request are of the observation.
unfoldable pub is_bound : Observation → ActionRequest → ControllerActionResult → Bool
is_bound o request r =
    not (is_empty r.run_id || is_empty r.actor_id || is_empty r.action_request_id)
    && (r.run_id == o.run_id && r.actor_id == o.actor_id)
    && r.action_request_id == request.action_request_id
    && (request.run_id == o.run_id && request.actor_id == o.actor_id)
    && request.based_on_observation_id == o.observation_id
    && request.submitted_at ==ℕ o.simulation_time
    && r.started_at ==ℕ request.submitted_at
    && not (ltb r.resolved_at r.started_at)
    && eqb_ℤ r.schema_version (pos 1)
    && is_visible_reason r.reason_code
    && is_status_bound r

abbrev pub has_request : String → EventTrace → Bool
has_request id t = t.action_request.action_request_id == id

-- The trace of a retry, if it agrees in everything.
unfoldable pub retried :
    Observation → JsonObject → ControllerActionResult → EventTrace → Result EventTrace
retried o action_json receipt trace = do
  raise_if
      (not (
        same_object trace.action_json action_json
        && same_observation trace.observation o
        && same_receipt trace.actor_visible_receipt receipt))
      value_error
  ok trace

abbrev pub new_trace :
    Observation
    → ActionRequest
    → JsonObject
    → ControllerActionResult
    → EventMemoryContext
    → ℕ
    → EventTrace
new_trace o request action_json receipt context sequence = record {
  event_trace_id = o.run_id <> ":" <> o.actor_id <> ":event-trace:" <> format_08d sequence;
  sequence = sequence;
  run_id = o.run_id;
  actor_id = o.actor_id;
  decision_opportunity_id = context.decision_opportunity_id;
  opportunity_sequence = context.opportunity_sequence;
  attempt = context.attempt;
  observation = o;
  action_request = request;
  action_json = action_json;
  actor_visible_receipt = receipt;
  opened_at = o.simulation_time;
  closed_at = receipt.resolved_at;
  memory_eligible = true;
}

-- What `close` checks before it reads the archive: the normalised request and its value.
unfoldable pub checked_request :
    Observation
    → ActionRequest
    → ControllerActionResult
    → Bool
    → Result (ActionRequest × JsonObject)
unfolding is_bound
checked_request o value receipt engine_submitted = do
  raise_if (not engine_submitted) value_error
  request ← normalize_request value
  validate_action_contract request
  action_json ← request_fingerprint request
  raise_if (not (is_bound o request receipt)) value_error
  ok (request, action_json)

-- The context that a new trace closes.
unfoldable pub active_context : Observation → EventTraceArchive → Result EventMemoryContext
active_context o archive = do
  context ← or_raise archive.context value_error
  raise_if (archive.closed || not (same_observation context.current o)) value_error
  ok context

unfoldable pub close_new :
    Observation
    → ActionRequest
    → JsonObject
    → ControllerActionResult
    → Exec EventTraceArchive EventTrace
unfolding active_context
close_new o request action_json receipt archive = elim (active_context o archive) [
  | err e ↦ (err e, archive)
  | ok context ↦
      let trace = new_trace o request action_json receipt context (length archive.traces + 1) in
      (ok trace, record archive { traces = archive.traces ++ trace ∷ []; closed = true })
]

unfoldable pub close :
    Observation → ActionRequest → ControllerActionResult → Bool → Exec EventTraceArchive EventTrace
unfolding checked_request retried close_new
close o value receipt engine_submitted archive =
    elim (checked_request o value receipt engine_submitted) [
      | err e ↦ (err e, archive)
      | ok checked ↦ elim (first (has_request checked.0.action_request_id) archive.traces) [
        | some trace ↦ (retried o checked.1 receipt trace, archive)
        | none ↦ close_new o checked.0 checked.1 receipt archive
      ]
    ]
