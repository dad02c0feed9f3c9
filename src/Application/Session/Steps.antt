-- ===== src/Application/Session/Steps.antt =====
-- Every submission keeps each identity an input once.
use journey_map.Prelude.{
  String, ◌≡◌, ◌⊎◌, refl, sym, ap, ◌∙◌, inl, inr, true, false, not, ◌||◌, Option, none, some, [],
  ◌∷◌, ◌++◌, arith, Bool-cases, eq_refl, some_injective,
}
use journey_map.Prelude.Exec.{Result-cases}
use journey_map.Prelude.State.{◌>>=◌, continue}
use journey_map.Prelude.Dict.{Dict, lookup, contains}
use journey_map.Json.{JsonObject}
use journey_map.Core.Run.{is_running}
use journey_map.Core.Handlers.{ActionRequest}
use journey_map.Application.Contracts.{normalize_request, request_fingerprint}
use journey_map.Application.Session.{
  ActionTrace, RequestEntry, SimulationApplication, enter, set_busy, next_sequence, append_trace,
}
use journey_map.Application.Session.Execute.{preflight, execute}
use journey_map.Application.Session.Submit.{
  new_entry, put_entry, last_of, settled, first_attempt, repeat, attempt, submit_inner, submit,
  is_same_request,
}
use journey_map.Application.Session.Once.{
  engine_count, IsOnce, Appends, Keeps, Settles, after_preflight-Appends, settled-Settles,
}
use journey_map.Application.Session.Counting.{
  Changed, inserted, then-Changed, count-others, count-own, count-no_input, last_of-append,
  contains-insert, IsOnce-step, settled-Changed,
}

contains-none : (id : String) (d : Dict RequestEntry) → lookup id d ≡ none → contains id d ≡ false
contains-none id d h = rw (h, contains) refl

module _ {W : Type 0} where
  -- An execution and the settling after it, from an application in which the identity is reserved.
  attempt-IsOnce :
      (id : String) (request : ActionRequest) (entry : RequestEntry)
      (app left final : SimulationApplication W)
      → request.action_request_id ≡ id
      → IsOnce app
      → contains id app.requests ≡ false
      → Appends request (put_entry id entry app) left ⊎ Keeps (put_entry id entry app) left
      → Settles id left final ⊎ Keeps left final
      → IsOnce final
  attempt-IsOnce id request entry app left final of_id once free (inr k) s =
      let none_yet = (once id).1 free in
      let reserved = contains-insert id id entry app.requests ∙ (rw (eq_refl id) refl) in
      let there : contains id left.requests ≡ true = rw k.requests reserved in
      let (traces, changed) =
        settled-Changed id (engine_count id app.traces ≡ 0) left final (λ _ _ _. none_yet) s
          there in
      let same : final.traces ≡ app.traces = traces ∙ k.traces in
      let first_ : Changed id (engine_count id app.traces ≡ 0) app.requests left.requests =
        rw k.requests (inserted id _ entry app.requests) in
      let both = then-Changed id _ _ app.requests left.requests final.requests first_ changed in
      IsOnce-step id app final once free (λ j other. ap (engine_count j) same)
        (let e = ap (engine_count id) same in omega (arith, e)) (rw same both)
  attempt-IsOnce id request entry app left final of_id once free (inl a) s =
      let none_yet = (once id).1 free in
      let reserved = contains-insert id id entry app.requests ∙ (rw (eq_refl id) refl) in
      let there : contains id left.requests ≡ true = rw a.requests reserved in
      let of_trace : a.trace.request.action_request_id ≡ id =
        ap (λ r. r.action_request_id) a.of_request ∙ of_id in
      let is_last : last_of left.traces ≡ some a.trace =
        rw a.traces (last_of-append app.traces a.trace) in
      let idle : (trace : ActionTrace)
          → last_of left.traces ≡ some trace
          → trace.engine_submitted ≡ false
          → engine_count id (app.traces ++ a.trace ∷ []) ≡ 0 =
        λ trace last no_input.
          let own : a.trace ≡ trace = some_injective (sym is_last ∙ last) in
          count-no_input id app.traces a.trace (ap (λ t. t.engine_submitted) own ∙ no_input)
          ∙ none_yet in
      let (traces, changed) = settled-Changed id _ left final idle s there in
      let longer : final.traces ≡ app.traces ++ a.trace ∷ [] = traces ∙ a.traces in
      let first_ : Changed id (engine_count id app.traces ≡ 0) app.requests left.requests =
        rw a.requests (inserted id _ entry app.requests) in
      let both = then-Changed id _ _ app.requests left.requests final.requests first_ changed in
      IsOnce-step id app final once free
        (λ j other.
          ap (engine_count j) longer ∙ count-others id j app.traces a.trace of_trace other)
        (rw longer (count-own id app.traces a.trace)) (rw longer both)

  -- A trace that was no input changes nothing of the count.
  idle-IsOnce :
      (t : ActionTrace) (app : SimulationApplication W)
      → t.engine_submitted ≡ false
      → IsOnce app
      → IsOnce (append_trace t app)
  idle-IsOnce t app idle once id =
      let (few, none_free) = once id in
      let same = count-no_input id app.traces t idle in
      (omega (arith, few, same), λ h. same ∙ none_free h)

  repeat-IsOnce :
      (entry : RequestEntry) (actor_id : String) (request : ActionRequest)
      (fingerprint : JsonObject) (app : SimulationApplication W)
      → IsOnce app
      → IsOnce (repeat entry actor_id request fingerprint app).1
  unfolding repeat
  repeat-IsOnce entry actor_id request fingerprint app once =
      elim (Bool-cases (is_same_request entry actor_id fingerprint)) [
        | inl same ↦ rw (same, repeat) (idle-IsOnce _ app refl once)
        | inr other ↦ rw (other, repeat) (idle-IsOnce _ app refl once)
      ]

  module _ (sha256 : JsonObject → String) where
    first_attempt-IsOnce :
        (actor_id : String) (request : ActionRequest) (fingerprint : JsonObject)
        (app : SimulationApplication W)
        → lookup request.action_request_id app.requests ≡ none
        → IsOnce app
        → IsOnce (first_attempt sha256 actor_id request fingerprint app).1
    unfolding first_attempt execute
    first_attempt-IsOnce actor_id request fingerprint app new once =
        let id = request.action_request_id in
        let entry = new_entry actor_id fingerprint (next_sequence app) in
        let reserved = put_entry id entry app in
        let out = execute sha256 actor_id request reserved in
        attempt-IsOnce id request entry app out.1 (settled entry actor_id request out.0 out.1).1
          refl once (contains-none id app.requests new)
          (after_preflight-Appends sha256 (preflight actor_id request reserved) actor_id request
            reserved)
          (settled-Settles entry actor_id request out.0 out.1)

    attempt-keeps :
        (previous : Option RequestEntry) (actor_id : String) (request : ActionRequest)
        (fingerprint : JsonObject) (app : SimulationApplication W)
        → lookup request.action_request_id app.requests ≡ previous
        → IsOnce app
        → IsOnce (attempt sha256 previous actor_id request fingerprint app).1
    unfolding attempt
    attempt-keeps none actor_id request fingerprint app h once =
        first_attempt-IsOnce actor_id request fingerprint app h once
    attempt-keeps (some entry) actor_id request fingerprint app h once =
        repeat-IsOnce entry actor_id request fingerprint app once

    submit_inner-IsOnce :
        (actor_id : String) (value : ActionRequest) (app : SimulationApplication W)
        → IsOnce app
        → IsOnce (submit_inner sha256 actor_id value app).1
    unfolding submit_inner ◌>>=◌
    submit_inner-IsOnce actor_id value app once = elim (Result-cases (normalize_request value)) [
      | inr (e, bad) ↦ rw (bad, continue) once
      | inl (request, fine) ↦ elim (Result-cases (request_fingerprint request)) [
        | inr (e, bad) ↦ rw (fine, continue, bad) once
        | inl (fingerprint, printed) ↦
            rw (fine, continue, printed)
              (attempt-keeps (lookup request.action_request_id app.requests) actor_id request
                fingerprint app refl once)
      ]
    ]

    pub submit-IsOnce :
        (actor_id : String) (value : ActionRequest) (app : SimulationApplication W)
        → IsOnce app
        → IsOnce (submit sha256 actor_id value app).1
    unfolding submit enter ◌>>=◌
    submit-IsOnce actor_id value app once =
        elim (Bool-cases (app.busy || not (is_running app.kernel.run.status))) [
          | inl closed ↦ rw (closed, enter, continue) once
          | inr open_ ↦
              rw (open_, enter, continue)
                (submit_inner-IsOnce actor_id value (set_busy true app) once)
        ]
