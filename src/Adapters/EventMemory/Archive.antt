-- ===== src/Adapters/EventMemory/Archive.antt =====
-- What an archive of events holds after every close.
use journey_map.Prelude.{
  ℕ, ◌+◌, Bool, ◌≡◌, true, false, not, inl, inr, none, some, List, [], ◌∷◌, ◌++◌, length, arith,
  All, All-append, Option-cases, first, ap, Bool-cases,
}
use journey_map.Prelude.Exec.{ok, value_error, raise_if, >>=-eq-ok, ok-injective, Result-cases}
use journey_map.Json.{JsonObject}
use journey_map.Core.Controller.{ControllerActionResult}
use journey_map.Core.Handlers.{ActionRequest}
use journey_map.Core.Observations.{Observation}
use journey_map.Application.Contracts.{
  normalize_request, request_fingerprint, validate_action_contract,
}
use journey_map.Adapters.EventMemory.{
  EventTrace, EventTraceArchive, is_bound, has_request, new_trace, checked_request, active_context,
  close_new, close,
}

-- Traces numbered from `n`, each with a receipt that is bound to its request and observation, and
-- with a request of its own.
abbrev pub IsArchive : ℕ → List EventTrace → Type 0
IsArchive n [] = Unit
IsArchive n (t ∷ ts) =
    (t.sequence ≡ n)
    × (is_bound t.observation t.action_request t.actor_visible_receipt ≡ true)
    × All (λ u. has_request u.action_request.action_request_id t ≡ false) ts
    × IsArchive (n + 1) ts

-- A trace with the next number and a request that no other has keeps an archive one.
IsArchive-append :
    (n : ℕ) (ts : List EventTrace) (t : EventTrace)
    → IsArchive n ts
    → t.sequence ≡ n + length ts
    → is_bound t.observation t.action_request t.actor_visible_receipt ≡ true
    → first (has_request t.action_request.action_request_id) ts ≡ none
    → IsArchive n (ts ++ t ∷ [])
IsArchive-append n [] t h number bound fresh = (omega (arith, number), bound, tt, tt)
IsArchive-append n (u ∷ ts) t h number bound fresh =
    elim (Bool-cases (has_request t.action_request.action_request_id u)) [
      | inl same ↦ let clash : some u ≡ none = rw (same, first) at fresh in cc
      | inr other ↦ (
        h.0,
        h.1,
        All-append (λ v. has_request v.action_request.action_request_id u ≡ false) ts (t ∷ []) h.2
            (other, tt),
        IsArchive-append (n + 1) ts t h.3 (omega (arith, number)) bound
            (rw (other, first) at fresh),
      )
    ]

checked_request-bound :
    (o : Observation) (value : ActionRequest) (receipt : ControllerActionResult) (confirmed : Bool)
    (request : ActionRequest) (printed : JsonObject)
    → checked_request o value receipt confirmed ≡ ok (request, printed)
    → is_bound o request receipt ≡ true
unfolding checked_request
checked_request-bound o value receipt confirmed request printed h =
    let (_, _, h₁) = >>=-eq-ok (raise_if (not confirmed) value_error) _ h in
    let (r, _, h₂) = >>=-eq-ok (normalize_request value) _ h₁ in
    let (_, _, h₃) = >>=-eq-ok (validate_action_contract r) _ h₂ in
    let (json, _, h₄) = >>=-eq-ok (request_fingerprint r) _ h₃ in
    let (_, tested, h₅) = >>=-eq-ok (raise_if (not (is_bound o r receipt)) value_error) _ h₄ in
    let same : r ≡ request = ap (λ p. p.0) (ok-injective h₅) in
    elim (Bool-cases (is_bound o r receipt)) [
      | inl bound ↦ rw same at bound
      | inr loose ↦ let clash = rw loose at tested in cc
    ]

-- After every call of `close`, whether it returns a trace or raises, an archive is still one: its
-- traces are numbered from one without a gap, each has a receipt that is bound to its request and
-- its observation, and no two of them are of the same request.
pub close-IsArchive :
    (o : Observation) (value : ActionRequest) (receipt : ControllerActionResult) (confirmed : Bool)
    (archive : EventTraceArchive)
    → IsArchive 1 archive.traces
    → IsArchive 1 (close o value receipt confirmed archive).1.traces
unfolding close close_new
close-IsArchive o value receipt confirmed archive h =
    elim (Result-cases (checked_request o value receipt confirmed)) [
      | inr (e, refused) ↦ rw (refused, close) h
      | inl ((request, printed), checked) ↦
          elim (Option-cases (first (has_request request.action_request_id) archive.traces)) [
            | inr (trace, known) ↦ rw (checked, close, known) h
            | inl fresh ↦ elim (Result-cases (active_context o archive)) [
              | inr (e, idle) ↦ rw (checked, close, fresh, idle, close_new) h
              | inl (context, active) ↦
                  let trace =
                    new_trace o request printed receipt context (length archive.traces + 1) in
                  let bound =
                    checked_request-bound o value receipt confirmed request printed checked in
                  rw (checked, close, fresh, active, close_new)
                    (IsArchive-append 1 archive.traces trace h (omega arith) bound fresh)
            ]
          ]
    ]
