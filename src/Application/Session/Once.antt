-- ===== src/Application/Session/Once.antt =====
-- Each request identity is an engine's input once at most.
use journey_map.Prelude.{
  ℕ, ◌+◌, ◌≤◌, String, ◌≡◌, ◌⊎◌, refl, inl, inr, Bool, false, not, ◌&&◌, Option, none, some, List,
  [], ◌∷◌, ◌++◌, ◌==◌, leb, length, arith, if◌then◌else◌, Bool-cases, Option-cases,
}
use journey_map.Prelude.Exec.{Result, ok, err, game_submission, action_handler_not_found}
use journey_map.Prelude.Dict.{insert, erase, contains}
use journey_map.Json.{JsonObject}
use journey_map.Core.Handlers.{ActionRequest, ActionResult}
use journey_map.Core.Controller.{ControllerActionResult}
use journey_map.Core.Kernel.Submit.{submit_action}
use journey_map.Application.Session.{ActionTrace, RequestEntry, SimulationApplication}
use journey_map.Application.Session.Execute.{
  Preflight, granted, denied, unread, escaped, after_preflight, engine_ended, run_engine,
}
use journey_map.Application.Session.Submit.{own_trace, last_of, release, settle, settled}

-- The attempts with an identity that were engine inputs.
abbrev pub is_input : String → ActionTrace → Bool
is_input id t = t.engine_submitted && t.request.action_request_id == id

unfoldable pub engine_count : String → List ActionTrace → ℕ
engine_count id [] = 0
engine_count id (t ∷ ts) = let rest = engine_count id ts in if is_input id t then 1 + rest else rest

pub engine_count-append :
    (id : String) (ts : List ActionTrace) (t : ActionTrace)
    → engine_count id (ts ++ t ∷ []) ≡ engine_count id ts + (if is_input id t then 1 else 0)
unfolding engine_count
engine_count-append id [] t = ground arith
engine_count-append id (u ∷ ts) t = ground (arith, engine_count-append id ts t)

module _ {W : Type 0} where
  -- No identity was an input twice, and one that is not reserved was none.
  abbrev pub IsOnce : SimulationApplication W → Type 0
  IsOnce app =
      (id : String)
      → (engine_count id app.traces ≤ 1)
        × (contains id app.requests ≡ false → engine_count id app.traces ≡ 0)

  -- What an execution leaves: the requests, and one trace more of its request, or the traces.
  pub record Appends (request : ActionRequest) (app left : SimulationApplication W) : Type 0 where
    pub trace : ActionTrace
    pub traces : left.traces ≡ app.traces ++ trace ∷ []
    pub of_request : trace.request ≡ request
    pub requests : left.requests ≡ app.requests

  pub record Keeps (app left : SimulationApplication W) : Type 0 where
    pub traces : left.traces ≡ app.traces
    pub requests : left.requests ≡ app.requests

  engine_ended-Appends :
      (offset : ℕ) (actor_id : String) (request : ActionRequest) (r : Result ActionResult)
      (app : SimulationApplication W)
      → Appends request app (engine_ended offset actor_id request r app).1
  unfolding engine_ended
  engine_ended-Appends offset actor_id request (ok result) app = record {
    trace = _;
    traces = refl;
    of_request = refl;
    requests = refl;
  }
  engine_ended-Appends offset actor_id request (err action_handler_not_found) app = record {
    trace = _;
    traces = refl;
    of_request = refl;
    requests = refl;
  }
  engine_ended-Appends offset actor_id request (err e) app = record {
    trace = _;
    traces = refl;
    of_request = refl;
    requests = refl;
  }

  module _ (sha256 : JsonObject → String) where
    pub after_preflight-Appends :
        (p : Preflight) (actor_id : String) (request : ActionRequest)
        (app : SimulationApplication W)
        → Appends request app (after_preflight sha256 p actor_id request app).1
          ⊎ Keeps app (after_preflight sha256 p actor_id request app).1
    unfolding after_preflight run_engine
    after_preflight-Appends granted actor_id request app =
        let out = submit_action sha256 request app.kernel in
        let a =
          engine_ended-Appends (length app.kernel.action_results) actor_id request out.0
            (record app { kernel = out.1 }) in
        inl (record {
          trace = a.trace;
          traces = a.traces;
          of_request = a.of_request;
          requests = a.requests;
        })
    after_preflight-Appends (denied reason) actor_id request app =
        inl (record { trace = _; traces = refl; of_request = refl; requests = refl })
    after_preflight-Appends (unread e) actor_id request app =
        inl (record { trace = _; traces = refl; of_request = refl; requests = refl })
    after_preflight-Appends (escaped e) actor_id request app =
        inr (record { traces = refl; requests = refl })

  -- What settling leaves: the traces, and an entry, or none where the last trace was no input.
  pub record Settles (id : String) (app left : SimulationApplication W) : Type 0 where
    pub traces : left.traces ≡ app.traces
    pub requests :
        ((entry : RequestEntry) × (left.requests ≡ insert id entry app.requests))
        ⊎ ((left.requests ≡ erase id app.requests)
            × ((trace : ActionTrace) × (last_of app.traces ≡ some trace)
                × (trace.engine_submitted ≡ false)))

  release-Settles :
      (entry : RequestEntry) (code : String) (request : ActionRequest) (found : Option ActionTrace)
      (app : SimulationApplication W)
      → ((t : ActionTrace) → found ≡ some t → last_of app.traces ≡ some t)
      → Settles request.action_request_id app (release entry code request found app)
  unfolding release
  release-Settles entry code request none app last = record {
    traces = refl;
    requests = inl (entry, refl);
  }
  release-Settles entry code request (some trace) app last =
      elim (Bool-cases (code == "KNOWLEDGE_UNAVAILABLE" && not trace.engine_submitted)) [
        | inl free ↦
            rw (free, release)
              (record {
                traces = refl;
                requests = inr (refl, (trace, last trace refl, ground (arith, free)));
              })
        | inr kept ↦ rw (kept, release) (record { traces = refl; requests = inl (entry, refl) })
      ]

  settle-Settles :
      (entry : RequestEntry) (code actor_id : String) (request : ActionRequest)
      (found : Option ActionTrace) (app : SimulationApplication W)
      → ((t : ActionTrace) → found ≡ some t → last_of app.traces ≡ some t)
      → Settles request.action_request_id app (settle entry code actor_id request found app)
  unfolding settle
  settle-Settles entry code actor_id request none app last =
      release-Settles entry code request none app last
  settle-Settles entry code actor_id request (some trace) app last =
      elim (Option-cases trace.result) [
        | inl none_there ↦
            rw (none_there, settle) (release-Settles entry code request (some trace) app last)
        | inr (result, there) ↦
            rw (there, settle) (record { traces = refl; requests = inl (_, refl) })
      ]

  own_trace-last_of :
      (n : ℕ) (app : SimulationApplication W) (t : ActionTrace)
      → own_trace n app ≡ some t
      → last_of app.traces ≡ some t
  own_trace-last_of n app t h = elim (Bool-cases (leb n (length app.traces))) [
    | inl there ↦ rw there at h
    | inr short ↦ (let clash = rw short at h in cc)
  ]

  pub settled-Settles :
      (entry : RequestEntry) (actor_id : String) (request : ActionRequest)
      (r : Result ControllerActionResult) (app : SimulationApplication W)
      → Settles request.action_request_id app (settled entry actor_id request r app).1
        ⊎ Keeps app (settled entry actor_id request r app).1
  unfolding settled
  settled-Settles entry actor_id request (ok visible) app =
      inl (record { traces = refl; requests = inl (_, refl) })
  settled-Settles entry actor_id request (err (game_submission code)) app = inl (
      settle-Settles (record entry { error_code = code }) code actor_id request
        (own_trace entry.attempt_sequence app) app (own_trace-last_of entry.attempt_sequence app))
  settled-Settles entry actor_id request (err e) app =
      inr (record { traces = refl; requests = refl })
