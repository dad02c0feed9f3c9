-- ===== src/Application/Turns/Outcomes.antt =====
-- What a turn ends with.
use journey_map.Prelude.{
  String, ◌≡◌, ◌⊎◌, refl, inl, inr, true, false, Option, none, some, Bool-cases,
}
use journey_map.Prelude.Exec.{
  Result, ok, err, validation, game_submission, ok-injective, ◌>>=◌, ◌>>◌,
}
use journey_map.Core.Controller.{Controller, ControllerActionResult, GamePort}
use journey_map.Core.Handlers.{ActionRequest}
use journey_map.Core.Observations.{Observation, validate_observation_v1}
use journey_map.Application.Reasons.{is_in, turn_failure_codes}
use journey_map.Application.Contracts.{normalize_request, validate_action_contract}
use journey_map.Application.Turns.{
  ControllerTurnResult, is_foreign, submitted, submit_turn, request_turn, decide_turn, observe_turn,
  run_controller_turn,
}
use journey_map.Application.Turns.Codes.{validate_action_contract-IsCoded}

-- A failure that was never submitted: a code of the list, no receipt, and the game as it was left.
pub record IsRefused {App : Type 0} (seen left : App) (t : ControllerTurnResult) : Type 0 where
  pub code : String
  pub failed : t.failure_code ≡ some code
  pub listed : is_in turn_failure_codes code ≡ true
  pub no_receipt : t.receipt ≡ none
  pub untouched : left ≡ seen

-- What a submission that ended with `r` is recorded as.
abbrev pub IsAnswer : Result ControllerActionResult → ControllerTurnResult → Type 0
IsAnswer r t =
    ((receipt : ControllerActionResult) × (r ≡ ok receipt)
      × (t.receipt ≡ some receipt)
      × (t.failure_code ≡ none))
    ⊎ ((code : String) × (r ≡ err (game_submission code))
        × (t.receipt ≡ none)
        × (t.failure_code ≡ some "SUBMISSION_ERROR"))

-- A request that was submitted: of the observation, of a valid contract, with the receipt that the
-- game gave, or SUBMISSION_ERROR where the game refused the submission.
pub record IsSubmitted {App : Type 0} (game : GamePort App) (seen left : App)
    (t : ControllerTurnResult) : Type 0 where
  pub observation : Observation
  pub request : ActionRequest
  pub shown : t.observation ≡ some observation
  pub asked : t.request ≡ some request
  pub of_observation : is_foreign request observation ≡ false
  pub contract : validate_action_contract request ≡ ok tt
  pub submission : left ≡ (game.submit request seen).1
  pub answer : IsAnswer (game.submit request seen).0 t

submitted-IsAnswer :
    (o : Observation) (request : ActionRequest) (r : Result ControllerActionResult)
    (t : ControllerTurnResult)
    → submitted o request r ≡ ok t
    → (t.observation ≡ some o) × (t.request ≡ some request) × IsAnswer r t
unfolding submitted
submitted-IsAnswer o request (ok receipt) t h =
    rw (← ok-injective h) (refl, refl, inl (receipt, refl, refl, refl))
submitted-IsAnswer o request (err (game_submission code)) t h =
    rw (← ok-injective h) (refl, refl, inr (code, refl, refl, refl))
submitted-IsAnswer o request (err e) t h = cc

module _ {App : Type 0} (game : GamePort App) where
  abbrev IsTurn : App → Result ControllerTurnResult × App → Type 0
  IsTurn seen out =
      (t : ControllerTurnResult)
      → out.0 ≡ ok t
      → IsRefused seen out.1 t ⊎ IsSubmitted game seen out.1 t

  refused :
      (seen : App) (o : Option Observation) (r : Option ActionRequest) (code : String)
      (t : ControllerTurnResult)
      → is_in turn_failure_codes code ≡ true
      → ok (record { observation = o; request = r; receipt = none; failure_code = some code })
        ≡ ok t
      → IsRefused seen seen t
  refused seen o r code t listed h =
      rw (← ok-injective h) (record {
        code = code;
        failed = refl;
        listed = listed;
        no_receipt = refl;
        untouched = refl;
      })

  submit_turn-IsTurn :
      (observation : Observation) (request : ActionRequest) (checked : Result (Unit {0}))
      (seen : App)
      → is_foreign request observation ≡ false
      → validate_action_contract request ≡ checked
      → IsTurn seen (submit_turn game observation request checked seen)
  unfolding submit_turn submitted
  submit_turn-IsTurn observation request (err (validation reason)) seen own fine t h = inl (
      refused seen (some observation) (some request) reason t
        (validate_action_contract-IsCoded request reason fine) h)
  submit_turn-IsTurn observation request (err e) seen own fine t h = cc
  submit_turn-IsTurn observation request (ok u) seen own fine t h =
      let (shown, asked, answer) =
        submitted-IsAnswer observation request (game.submit request seen).0 t h in
      inr (record {
        observation = observation;
        request = request;
        shown = shown;
        asked = asked;
        of_observation = own;
        contract = fine;
        submission = refl;
        answer = answer;
      })

  request_turn-IsTurn :
      (observation : Observation) (r : Result ActionRequest) (seen : App)
      → IsTurn seen (request_turn game observation r seen)
  unfolding request_turn
  request_turn-IsTurn observation (err (game_submission code)) seen =
      λ t h. inl (refused seen (some observation) none "INVALID_CONTROLLER_OUTPUT" t refl h)
  request_turn-IsTurn observation (err e) seen = λ t h. cc
  request_turn-IsTurn observation (ok request) seen =
      elim (Bool-cases (is_foreign request observation)) [
        | inl wrong ↦
            rw (wrong, request_turn)
              (λ t h. inl (
                refused seen (some observation) (some request) "INVALID_CONTROLLER_OUTPUT" t refl
                  h))
        | inr own ↦
            rw (own, request_turn)
              (submit_turn-IsTurn observation request (validate_action_contract request) seen own
                refl)
      ]

  decide_turn-IsTurn :
      (observation : Observation) (r : Result ActionRequest) (seen : App)
      → IsTurn seen (decide_turn game observation r seen)
  unfolding decide_turn
  decide_turn-IsTurn observation (err e) seen t h =
      inl (refused seen (some observation) none "CONTROLLER_ERROR" t refl h)
  decide_turn-IsTurn observation (ok output) seen t h =
      request_turn-IsTurn observation (normalize_request output) seen t h

  observe_turn-IsTurn :
      (controller : Controller) (r : Result Observation) (seen : App)
      → IsTurn seen (observe_turn game controller r seen)
  unfolding observe_turn
  observe_turn-IsTurn controller (err e) seen t h =
      inl (refused seen none none "OBSERVATION_UNAVAILABLE" t refl h)
  observe_turn-IsTurn controller (ok observation) seen t h =
      decide_turn-IsTurn observation (controller observation) seen t h

  -- A turn that ends is one of two: a failure with a code of the documented list, without a
  -- receipt, after which the game is as the observation left it; or a submission of a request that
  -- is the observation's and has a valid contract, with the receipt of the game where
  -- the submission returned one, and SUBMISSION_ERROR exactly where the submission was refused.
  pub run_controller_turn-IsTurn :
      (controller : Controller) (app : App) (t : ControllerTurnResult)
      → (run_controller_turn game controller app).0 ≡ ok t
      → IsRefused (game.observe app).1 (run_controller_turn game controller app).1 t
        ⊎ IsSubmitted game (game.observe app).1 (run_controller_turn game controller app).1 t
  unfolding run_controller_turn
  run_controller_turn-IsTurn controller app t h =
      observe_turn-IsTurn controller
        ((game.observe app).0 >>= λ observation.
          validate_observation_v1 observation >> ok observation)
        (game.observe app).1 t h
