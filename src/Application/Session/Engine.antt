-- ===== src/Application/Session/Engine.antt =====
-- A submission changes the kernel by one call of the engine, of an authorized new request.
use journey_map.Prelude.{
  String, ◌≡◌, ◌⊎◌, refl, ap, ◌∙◌, inl, inr, true, not, ◌||◌, Option, none, some, Bool-cases,
}
use journey_map.Prelude.Exec.{ok, Result-cases}
use journey_map.Prelude.State.{◌>>=◌, continue}
use journey_map.Prelude.Dict.{lookup}
use journey_map.Json.{JsonObject}
use journey_map.Core.Run.{is_running}
use journey_map.Core.Handlers.{ActionRequest}
use journey_map.Core.Kernel.Submit.{submit_action}
use journey_map.Application.Contracts.{normalize_request, request_fingerprint}
use journey_map.Application.Session.{
  RequestEntry, SimulationApplication, enter, set_busy, next_sequence,
}
use journey_map.Application.Session.Execute.{preflight, execute}
use journey_map.Application.Session.Submit.{
  new_entry, put_entry, first_attempt, attempt, submit_inner, submit,
}
use journey_map.Application.Session.Retry.{IsOpen, repeat-IsRetry, submit-attempt}
use journey_map.Application.Session.Authority.{
  IsAuthorized, authority_reason-none, preflight-granted, settled-kernel, after_preflight-kernel,
}

module _ {W : Type 0} (sha256 : JsonObject → String) where
  -- One call of the engine, of a request that the actor was entitled to make, and for the first
  -- time.
  pub record IsEngineCall (actor_id : String) (value : ActionRequest)
      (app left : SimulationApplication W) : Type 0 where
    pub open_ : IsOpen app
    pub request : ActionRequest
    pub normalized : normalize_request value ≡ ok request
    pub new : lookup request.action_request_id app.requests ≡ none
    pub authorized : IsAuthorized actor_id request app
    pub kernel : left.kernel ≡ (submit_action sha256 request app.kernel).1

  attempt-kernel :
      (previous : Option RequestEntry) (actor_id : String) (request : ActionRequest)
      (fingerprint : JsonObject) (app : SimulationApplication W)
      → ((attempt sha256 previous actor_id request fingerprint app).1.kernel ≡ app.kernel)
        ⊎ ((previous ≡ none)
            × IsAuthorized actor_id request app
            × ((attempt sha256 previous actor_id request fingerprint app).1.kernel
                ≡ (submit_action sha256 request app.kernel).1))
  unfolding attempt first_attempt execute
  attempt-kernel (some entry) actor_id request fingerprint app =
      inl (repeat-IsRetry entry actor_id request fingerprint app).kernel
  attempt-kernel none actor_id request fingerprint app =
      let entry = new_entry actor_id fingerprint (next_sequence app) in
      let reserved = put_entry request.action_request_id entry app in
      let out = execute sha256 actor_id request reserved in
      let settled_same = settled-kernel entry actor_id request out.0 out.1 in
      elim (after_preflight-kernel sha256 (preflight actor_id request reserved) actor_id request
        reserved) [
          | inl same ↦ inl (settled_same ∙ same)
          | inr (grant, called) ↦
              let a =
                authority_reason-none actor_id request reserved
                  (preflight-granted actor_id request reserved grant) in
              inr (
                refl,
                record {
                  run = a.run;
                  own = a.own;
                  observation = a.observation;
                  seen = a.seen;
                  seen_run = a.seen_run;
                  seen_by = a.seen_by;
                  now = a.now;
                },
                settled_same ∙ called,
              )
        ]

  submit_open-kernel :
      (actor_id : String) (value : ActionRequest) (app : SimulationApplication W)
      → IsOpen app
      → ((submit sha256 actor_id value app).1.kernel ≡ app.kernel)
        ⊎ IsEngineCall actor_id value app (submit sha256 actor_id value app).1
  unfolding submit submit_inner enter ◌>>=◌
  submit_open-kernel actor_id value app open_ = elim (Result-cases (normalize_request value)) [
    | inr (e, bad) ↦ inl (rw (open_, enter, continue, bad) refl)
    | inl (request, fine) ↦ elim (Result-cases (request_fingerprint request)) [
      | inr (e, bad) ↦ inl (rw (open_, enter, continue, fine, continue, bad) refl)
      | inl (fingerprint, printed) ↦
          let out =
            submit-attempt sha256 actor_id value request fingerprint app open_ fine printed in
          elim (attempt-kernel (lookup request.action_request_id app.requests) actor_id request
            fingerprint (set_busy true app)) [
              | inl same ↦ inl (ap (λ o. o.1.kernel) out ∙ same)
              | inr (new, a, called) ↦ inr (record {
                open_ = open_;
                request = request;
                normalized = fine;
                new = new;
                authorized = record {
                  run = a.run;
                  own = a.own;
                  observation = a.observation;
                  seen = a.seen;
                  seen_run = a.seen_run;
                  seen_by = a.seen_by;
                  now = a.now;
                };
                kernel = ap (λ o. o.1.kernel) out ∙ called;
              })
            ]
    ]
  ]

  -- Whatever is submitted, the kernel stays as it is, or it is what one call of the engine makes
  -- of it: in an open game, of a well-formed request whose identity is new, of the actor itself,
  -- in this run and at this time, based on an observation that this actor got.
  pub submit-IsEngineCall :
      (actor_id : String) (value : ActionRequest) (app : SimulationApplication W)
      → ((submit sha256 actor_id value app).1.kernel ≡ app.kernel)
        ⊎ IsEngineCall actor_id value app (submit sha256 actor_id value app).1
  unfolding submit enter ◌>>=◌
  submit-IsEngineCall actor_id value app =
      elim (Bool-cases (app.busy || not (is_running app.kernel.run.status))) [
        | inl closed ↦ inl (rw (closed, enter, continue) refl)
        | inr open_ ↦ submit_open-kernel actor_id value app open_
      ]
