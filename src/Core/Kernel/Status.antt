-- ===== src/Core/Kernel/Status.antt =====
-- A run is created, runs after one boot, and ends with its close.
use journey_map.Prelude.{String, ◌≡◌, refl, ◌⊎◌, inl, inr, Bool, true, false, not, List}
use journey_map.Prelude.Int.{ℤ}
use journey_map.Prelude.Exec.{Result, ok, err, raise_if, runtime_error, >>=-eq-ok, ◌>>◌}
use journey_map.Prelude.State.{◌>>=◌}
use journey_map.Json.{JsonObject}
use journey_map.Core.Run
use journey_map.Core.Run.{SimulationRun, running, closed, is_running, is_created}
use journey_map.Core.Scheduler.{ScheduledEventSpec}
use journey_map.Core.Handlers.{ActionRequest}
use journey_map.Core.Modules.{validate_dependencies}
use journey_map.Core.Kernel.State.{
  SimulationKernel, ensure_available, ensure_not_transitioning, schedule, boot, booted, initialized,
  started, close, closing, released,
}
use journey_map.Core.Kernel.Advance.{advance_to}
use journey_map.Core.Kernel.Submit.{submit_action}
use journey_map.Core.Kernel.Invariant.{IsConsistent}

-- The kernel whose run has another status, over another world.
abbrev pub with_status : {W : Type 0} → Run.RunStatus → W → SimulationKernel W → SimulationKernel W
with_status status w k = record k { run = record k.run { status = status }; outside = w }

-- How a boot ends: it raises and the run is as it was; or the run was created, its modules are in
-- an order of their dependencies, persistence was initialised, and the run runs and cannot be
-- booted again.
abbrev pub BootEnds :
    {W : Type 0} → SimulationKernel W → Result (Unit {0}) × SimulationKernel W → Type 0
BootEnds {W} k (err x, l) = (w : W) × (l ≡ record k { outside = w })
BootEnds {W} k (ok _, l) =
    (is_created k.run.status ≡ true)
    × ((order : List String) × (validate_dependencies k.modules ≡ ok order))
    × ((w : W) × (k.persistence.initialize k.outside ≡ (ok tt, w)) × (l ≡ with_status running w k))
    × (boot l ≡ (err runtime_error, l))

-- A kernel that is not running takes no input, and is closed again without an effect.
pub record IsStopped {W : Type 0} (sha256 : JsonObject → String) (l : SimulationKernel W)
    : Type 0 where
  pub not_running : is_running l.run.status ≡ false
  pub no_schedule : (spec : ScheduledEventSpec) → schedule spec l ≡ (err runtime_error, l)
  pub no_advance : (target : ℤ) → advance_to sha256 target l ≡ (err runtime_error, l)
  pub no_action :
      (request : ActionRequest) → submit_action sha256 request l ≡ (err runtime_error, l)
  pub again : close l ≡ (ok tt, l)

-- How a close ends: it raises and the run is as it was; or the kernel is stopped, either as it was
-- before, or with its persistence closed and its run closed.
abbrev pub CloseEnds :
    {W : Type 0}
    → (JsonObject → String)
    → SimulationKernel W
    → Result (Unit {0}) × SimulationKernel W
    → Type 0
CloseEnds {W} sha256 k (err x, l) = (w : W) × (l ≡ record k { outside = w })
CloseEnds {W} sha256 k (ok _, l) =
    IsStopped sha256 l
    × (((is_running k.run.status ≡ false) × (l ≡ k))
        ⊎ ((is_running k.run.status ≡ true)
            × ((w : W) × (k.persistence.close k.outside ≡ (ok tt, w))
                × (l ≡ with_status closed w k))))

created_or : (b : Bool) (u : Unit {0}) → raise_if (not b) runtime_error ≡ ok u → b ≡ true
created_or true u h = refl
created_or false u h = cc

module _ {W : Type 0} where
  started-BootEnds :
      (w : W) (k : SimulationKernel W) (order : List String)
      → is_created k.run.status ≡ true
      → validate_dependencies k.modules ≡ ok order
      → k.persistence.initialize k.outside ≡ (ok tt, w)
      → BootEnds k (started (Run.start k.run) w k)
  unfolding started Run.start boot booted is_created
  started-BootEnds w k order new valid fine =
      rw (new, started) (new, (order, valid), (w, fine, refl), refl)

  initialized-BootEnds :
      (out : Result (Unit {0}) × W) (k : SimulationKernel W) (order : List String)
      → k.persistence.initialize k.outside ≡ out
      → is_created k.run.status ≡ true
      → validate_dependencies k.modules ≡ ok order
      → BootEnds k (initialized out k)
  unfolding initialized
  initialized-BootEnds (err x, w) k order fine new valid = (w, refl)
  initialized-BootEnds (ok _, w) k order fine new valid = started-BootEnds w k order new valid fine

  booted-BootEnds :
      (r : Result (List String)) (k : SimulationKernel W)
      → (raise_if (not (is_created k.run.status)) runtime_error >> validate_dependencies k.modules)
        ≡ r
      → BootEnds k (booted r k)
  unfolding booted
  booted-BootEnds (err x) k h = (k.outside, refl)
  booted-BootEnds (ok order) k h =
      let (u, new, valid) =
        >>=-eq-ok (raise_if (not (is_created k.run.status)) runtime_error)
          (λ _. validate_dependencies k.modules) h in
      initialized-BootEnds (k.persistence.initialize k.outside) k order refl
        (created_or (is_created k.run.status) u new) valid

  -- A boot either raises, with the run as it was; or the run was created and the modules'
  -- dependencies are in order, persistence is initialised, nothing of the kernel changes but that
  -- its run runs now, and a second boot is refused.
  pub boot-BootEnds : (k : SimulationKernel W) → BootEnds k (boot k)
  unfolding boot
  boot-BootEnds k = booted-BootEnds _ k refl

  module _ (sha256 : JsonObject → String) where
    stopped :
        (l : SimulationKernel W)
        → is_running l.run.status ≡ false
        → ensure_not_transitioning l ≡ ok tt
        → IsStopped sha256 l
    unfolding schedule advance_to submit_action close closing ◌>>=◌
    stopped l off idle =
        let refused : ensure_available l ≡ err runtime_error =
          unfold ensure_available in rw off refl in
        record {
          not_running = off;
          no_schedule = λ spec. rw refused refl;
          no_advance = λ target. rw refused refl;
          no_action = λ request. rw refused refl;
          again = rw (idle, off) refl;
        }

    released-CloseEnds :
        (out : Result (Unit {0}) × W) (k : SimulationKernel W)
        → k.persistence.close k.outside ≡ out
        → is_running k.run.status ≡ true
        → ensure_not_transitioning k ≡ ok tt
        → CloseEnds sha256 k (released out k)
    unfolding released Run.close is_running ensure_not_transitioning
    released-CloseEnds (err x, w) k fine on idle = (w, refl)
    released-CloseEnds (ok _, w) k fine on idle =
        rw (on, released) (stopped (with_status closed w k) refl idle, inr (refl, (w, fine, refl)))

    closing-CloseEnds :
        (r : Result (Unit {0})) (on : Bool) (k : SimulationKernel W)
        → ensure_not_transitioning k ≡ r
        → is_running k.run.status ≡ on
        → CloseEnds sha256 k (closing r on k)
    unfolding closing
    closing-CloseEnds (err x) on k idle h = (k.outside, refl)
    closing-CloseEnds (ok _) true k idle h =
        released-CloseEnds (k.persistence.close k.outside) k refl h idle
    closing-CloseEnds (ok _) false k idle h = (stopped k h idle, inl (h, refl))

    -- A close either raises, with the run as it was; or it leaves a kernel that refuses to
    -- schedule, to advance and to take actions, without a change, and that is closed again without
    -- an effect. A running kernel had its persistence closed and its run closed then, and another
    -- one is as it was.
    pub close-CloseEnds : (k : SimulationKernel W) → CloseEnds sha256 k (close k)
    unfolding close
    close-CloseEnds k =
        closing-CloseEnds (ensure_not_transitioning k) (is_running k.run.status) k refl refl

  -- A run's status and the outside world are no part of what makes a kernel consistent.
  with_status-IsConsistent :
      (status : Run.RunStatus) (w : W) (k : SimulationKernel W)
      → IsConsistent k
      → IsConsistent (with_status status w k)
  with_status-IsConsistent status w k c = record {
    log = c.log;
    counted = c.counted;
    past = c.past;
    started = c.started;
    future = c.future;
    queue = c.queue;
    word = c.word;
    systems_draw = c.systems_draw;
    actions_draw = c.actions_draw;
  }

  pub BootEnds-IsConsistent :
      (k : SimulationKernel W) (out : Result (Unit {0}) × SimulationKernel W)
      → IsConsistent k
      → BootEnds k out
      → IsConsistent out.1
  BootEnds-IsConsistent k (err x, l) c (w, e) = rw e (with_status-IsConsistent k.run.status w k c)
  BootEnds-IsConsistent k (ok _, l) c (_, _, (w, _, e), _) =
      rw e (with_status-IsConsistent running w k c)

  pub CloseEnds-IsConsistent :
      (sha256 : JsonObject → String) (k : SimulationKernel W)
      (out : Result (Unit {0}) × SimulationKernel W)
      → IsConsistent k
      → CloseEnds sha256 k out
      → IsConsistent out.1
  CloseEnds-IsConsistent sha256 k (err x, l) c (w, e) =
      rw e (with_status-IsConsistent k.run.status w k c)
  CloseEnds-IsConsistent sha256 k (ok _, l) c (_, inl (_, e)) = rw e c
  CloseEnds-IsConsistent sha256 k (ok _, l) c (_, inr (_, (w, _, e))) =
      rw e (with_status-IsConsistent closed w k c)
